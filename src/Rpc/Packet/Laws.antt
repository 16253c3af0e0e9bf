-- ===== src/Rpc/Packet/Laws.antt =====
-- Numbers survive the way through memory, and a packet's meta data is `kMetaSize` bytes.
use libserverkit.Base.{
  ℕ, zero, suc, ◌/◌, ◌^◌, ◌<◌, ◌≡◌, refl, ap, ◌∙◌, Bool, some, List, ◌++◌, length, arith, drop_all,
  append-nil,
}
use native.Mathlib.Nat.{pow-suc}
use libserverkit.Rpc.Packet.{
  Packet, bytes_of, value_of, overwrite, encode_meta, meta_size, packet_magic_num, new_packet,
}

pub length-bytes_of : (k v : ℕ) → length (bytes_of k v) ≡ k
unfolding bytes_of
length-bytes_of zero v = refl
length-bytes_of (suc k) v = ap suc (length-bytes_of k (v / 256))

-- The bytes of a number that fits stand for it.
pub value_of-bytes_of : (k v : ℕ) → v < 256 ^ k → value_of (bytes_of k v) ≡ v
unfolding bytes_of value_of
value_of-bytes_of zero v h = omega arith
value_of-bytes_of (suc k) v h =
    omega (arith, value_of-bytes_of k (v / 256) (omega (arith, pow-suc 256 k)))

pub overwrite-bytes_of : (k old v : ℕ) → v < 256 ^ k → overwrite k old (bytes_of k v) ≡ v
overwrite-bytes_of k old v h =
    ap (λ bs. value_of (bytes_of k v ++ bs))
      (drop_all _ (bytes_of k old) (omega (arith, length-bytes_of k old, length-bytes_of k v)))
    ∙ ap value_of (append-nil (bytes_of k v))
    ∙ value_of-bytes_of k v h

-- The fields are values of their C++ types.
pub record Fits (p : Packet) : Type 0 where
  pub magic_in : p.magic < 2 ^ 8
  pub guid_in : p.guid < 2 ^ 64
  pub method_in : p.method_id < 2 ^ 64
  pub size_in : p.size < 2 ^ 32

-- A packet as the constructor builds it: `size` is the length of the content.
pub record IsWellFormed (p : Packet) : Type 0 where
  pub fits : Fits p
  pub magic_is : p.magic ≡ packet_magic_num
  pub size_is : p.size ≡ length p.content

pub length-encode_meta : (p : Packet) → length (encode_meta p) ≡ meta_size
unfolding encode_meta bytes_of
length-encode_meta p = refl

-- The constructor builds such a packet from values that fit, if the content is below 4 GB.
pub new_packet-IsWellFormed :
    (id hash : ℕ) (content : List ℕ) (recv_done : Bool)
    → id < 2 ^ 64
    → hash < 2 ^ 64
    → length content < 2 ^ 32
    → IsWellFormed (new_packet id (some hash) content recv_done)
unfolding new_packet
new_packet-IsWellFormed id hash content recv_done hi hh hc = omega arith
