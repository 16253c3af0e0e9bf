-- ===== src/Rpc/Parser/Split.antt =====
-- Packets that arrive in pieces, and streams of packets.
use libserverkit.Base.{
  ℕ, ◌+◌, ◌≤◌, ◌<◌, ◌≡◌, ap, ◌∙◌, sym, subst, inl, inr, true, false, some, List, [], ◌++◌, length,
  take, drop, append_assoc, arith, length-append, append-nil, length-drop, take-append, drop-append,
  take-append-drop, take_within, drop_within, Bool-cases, ltb,
}
use libserverkit.ByteQueue.{ByteQueue, size_mod}
use libserverkit.Rpc.Packet.{Packet, encode_meta, encode, meta_size}
use libserverkit.Rpc.Packet.Laws.{length-encode_meta, IsWellFormed}
use libserverkit.Rpc.Parser.{Parser, recv_header, recv_content, recv_packet, send_packet}
use libserverkit.Rpc.Parser.Receive.{
  received, meta_of, recv_packet_whole, recv_packet_short, recv_packet_part, recv_rest,
}
use libserverkit.Rpc.Parser.Send.{send_packet_lem}

-- The first call on the piece `a` fails; once `b` has come, the second call yields the packet and
-- leaves what follows it.
abbrev pub Resumes :
    (q : ByteQueue) → Packet → Packet → ByteQueue.State q → List ℕ → List ℕ → Type 0
Resumes q p old s b ys =
    (m : Parser) × (t u v : ByteQueue.State q) × (recv_packet q
        (record { state = recv_header; packet = old }) s
      ≡ some (false, m, t))
    × (ByteQueue.write q b t ≡ some (length b, u))
    × (recv_packet q m u ≡ some (true, received p, v))
    × ByteQueue.Holds q v ys

module _ (q : ByteQueue) (p old : Packet) (s : ByteQueue.State q) (a b ys : List ℕ)
    (w : IsWellFormed p) (held : ByteQueue.Holds q s a) (small : length a + length b < size_mod)
    (whole : a ++ b ≡ encode p ++ ys) where
  within_meta : length a < meta_size → Resumes q p old s b ys
  within_meta h =
      let (u, e, k) = q.write_lem b s a held small in
      let (v, f, r) = recv_packet_whole q p old u ys w (subst (ByteQueue.Holds q u) whole k) in
      (
        record { state = recv_header; packet = old },
        s,
        u,
        v,
        recv_packet_short q old s a held h,
        e,
        f,
        r,
      )

  meta_first : meta_size ≤ length a → a ≡ encode_meta p ++ drop meta_size a
  unfolding encode
  meta_first h =
      sym (take-append-drop meta_size a)
      ∙ ap (λ m. m ++ drop meta_size a)
          (sym (take_within meta_size a b h)
            ∙ ap (take meta_size) (whole ∙ append_assoc (encode_meta p) p.content ys)
            ∙ ap (λ n. take n (encode_meta p ++ (p.content ++ ys))) (sym (length-encode_meta p))
            ∙ take-append (encode_meta p) (p.content ++ ys))

  content_next : meta_size ≤ length a → drop meta_size a ++ b ≡ p.content ++ ys
  unfolding encode
  content_next h =
      sym (drop_within meta_size a b h)
      ∙ ap (drop meta_size) (whole ∙ append_assoc (encode_meta p) p.content ys)
      ∙ ap (λ n. drop n (encode_meta p ++ (p.content ++ ys))) (sym (length-encode_meta p))
      ∙ drop-append (encode_meta p) (p.content ++ ys)

  within_content :
      meta_size ≤ length a → length a < meta_size + length p.content → Resumes q p old s b ys
  unfolding recv_packet
  within_content h k =
      let part = drop meta_size a in
      let (t, e, r) =
        recv_packet_part q p old s part w (subst (ByteQueue.Holds q s) (meta_first h) held)
          (omega (arith, length-drop meta_size a, w.size_is)) in
      let (u, f, r') = q.write_lem b t part r (omega (arith, length-drop meta_size a)) in
      let (v, g, r'') =
        recv_rest q p old.content u ys 1 w (subst (ByteQueue.Holds q u) (content_next h) r') in
      (record { state = recv_content; packet = meta_of p old.content }, t, u, v, e, f, g, r'')

  -- A packet may be cut anywhere: whatever was there before the cut, the packet is received once
  -- the rest has come.
  pub recv_packet_split : length a < length (encode p) → Resumes q p old s b ys
  unfolding encode
  recv_packet_split h = elim (Bool-cases (ltb (length a) meta_size)) [
    | inl e ↦ within_meta (ground arith)
    | inr e ↦
        within_content (ground arith)
          (omega (arith, length-append (encode_meta p) p.content, length-encode_meta p))
  ]

-- A well-formed packet that `SendPacket` writes to an empty queue is received from it as it was,
-- with `recv_done` set, and the queue is then empty.
pub send_recv :
    (q : ByteQueue) (p old : Packet) (s : ByteQueue.State q)
    → IsWellFormed p
    → ByteQueue.Holds q s []
    → (t u : ByteQueue.State q) × (send_packet q p s ≡ some t)
      × (recv_packet q (record { state = recv_header; packet = old }) t
          ≡ some (true, received p, u))
      × ByteQueue.Holds q u []
send_recv q p old s w h =
    let (t, e, k) = send_packet_lem q p s [] h (omega (arith, w.size_is, w.fits.size_in)) in
    let (u, f, r) =
      recv_packet_whole q p old t [] w
        (subst (ByteQueue.Holds q t) (sym (append-nil (encode p))) k) in
    (t, u, e, f, r)
