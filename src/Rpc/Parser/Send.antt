-- ===== src/Rpc/Parser/Send.antt =====
-- `SendPacket` puts the packet's bytes behind those that wait to be sent.
use libserverkit.Base.{
  ℕ, ◌+◌, ◌<◌, ◌≡◌, subst, some, List, ◌++◌, length, append_assoc, arith, length-append,
}
use libserverkit.ByteQueue.{ByteQueue, size_mod}
use libserverkit.Rpc.Packet.{Packet, bytes_of, encode_meta, encode, meta_size}
use libserverkit.Rpc.Packet.Laws.{length-bytes_of}
use libserverkit.Rpc.Parser.{send_packet}

module _ (q : ByteQueue) where
  pub send_packet_lem :
      (p : Packet) (s : ByteQueue.State q) (xs : List ℕ)
      → ByteQueue.Holds q s xs
      → length xs + meta_size + length p.content < size_mod
      → (t : ByteQueue.State q) × (send_packet q p s ≡ some t)
        × ByteQueue.Holds q t (xs ++ encode p)
  unfolding send_packet encode encode_meta
  send_packet_lem p s xs h small =
      let magic = bytes_of 1 p.magic in
      let guid = bytes_of 8 p.guid in
      let method_id = bytes_of 8 p.method_id in
      let size = bytes_of 4 p.size in
      let n₁ = length-bytes_of 1 p.magic in
      let n₂ = length-bytes_of 8 p.guid in
      let n₃ = length-bytes_of 8 p.method_id in
      let n₄ = length-bytes_of 4 p.size in
      let l₁ = length-append xs magic in
      let l₂ = length-append (xs ++ magic) guid in
      let l₃ = length-append ((xs ++ magic) ++ guid) method_id in
      let l₄ = length-append (((xs ++ magic) ++ guid) ++ method_id) size in
      let (s₁, e₁, h₁) = q.write_lem magic s xs h (omega arith) in
      let (s₂, e₂, h₂) = q.write_lem guid s₁ (xs ++ magic) h₁ (omega arith) in
      let (s₃, e₃, h₃) = q.write_lem method_id s₂ ((xs ++ magic) ++ guid) h₂ (omega arith) in
      let (s₄, e₄, h₄) =
        q.write_lem size s₃ (((xs ++ magic) ++ guid) ++ method_id) h₃ (omega arith) in
      let (s₅, e₅, h₅) =
        q.write_lem p.content s₄ ((((xs ++ magic) ++ guid) ++ method_id) ++ size) h₄
          (omega arith) in
      (s₅, rw (e₁, e₂, e₃, e₄, e₅), subst (ByteQueue.Holds q s₅) (simp append_assoc) h₅)
