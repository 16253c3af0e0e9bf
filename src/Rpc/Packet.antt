-- ===== src/Rpc/Packet.antt =====
-- rpc/packet.h, and the layout of a packet in the stream: the fields as a little-endian machine
-- holds them in memory, one after the other, then the content.
pub mod Laws
use libserverkit.Base.{
  ℕ, zero, suc, ◌+◌, ◌-◌, ◌*◌, ◌/◌, ◌%◌, ◌^◌, ◌<◌, ◌≡◌, Bool, true, false, Option, none, some, List,
  [], ◌∷◌, ◌++◌, length, drop,
}

abbrev pub meta_size : ℕ
meta_size = 21

abbrev pub packet_magic_num : ℕ
packet_magic_num = 0x2B

pub record Packet : Type 0 where
  pub magic : ℕ
  pub guid : ℕ
  pub method_id : ℕ
  pub size : ℕ
  pub content : List ℕ
  pub recv_done : Bool

-- `Packet()`
abbrev pub empty_packet : Packet
empty_packet = record {
  magic = 0;
  guid = 0;
  method_id = 0;
  size = 0;
  content = [];
  recv_done = false;
}

-- `Packet(id, method, req)`: `content` is the serialised message, and `method_hash` the hash of the
-- method's full name where a method is given. `recv_done_` is not set.
unfoldable pub new_packet : ℕ → Option ℕ → List ℕ → Bool → Packet
new_packet id method_hash content recv_done = record {
  magic = packet_magic_num;
  guid = id;
  method_id = elim method_hash [ none ↦ 0 | some h ↦ h ];
  size = length content % 2 ^ 32;
  content = content;
  recv_done = recv_done;
}

-- The `k` bytes of a number in memory, and the number that `k` bytes stand for.
unfoldable pub bytes_of : ℕ → ℕ → List ℕ
bytes_of zero v = []
bytes_of (suc k) v = (v % 256) ∷ bytes_of k (v / 256)

unfoldable pub value_of : List ℕ → ℕ
value_of [] = 0
value_of (b ∷ bs) = b + 256 * value_of bs

-- A variable of `k` bytes that held `old`, after its first bytes were overwritten by `out`.
abbrev pub overwrite : ℕ → ℕ → List ℕ → ℕ
overwrite k old out = value_of (out ++ drop (length out) (bytes_of k old))

-- The bytes of `magic`, `guid`, `method_id` and `size`.
unfoldable pub encode_meta : Packet → List ℕ
encode_meta p =
    bytes_of 1 p.magic ++ (bytes_of 8 p.guid ++ (bytes_of 8 p.method_id ++ bytes_of 4 p.size))

unfoldable pub encode : Packet → List ℕ
unfolding encode_meta
encode p = encode_meta p ++ p.content
