-- ===== src/Rpc/Parser/Receive.antt =====
-- `RecvPacket` on a queue that holds a whole packet, or a part of one.
use libserverkit.Base.{
  ℕ, suc, ◌-◌, ◌^◌, ◌<◌, ◌≡◌, ◌≢◌, refl, ap, ap₂, ◌∙◌, sym, subst, true, false, some, List, ◌++◌,
  length, take, replicate, append_assoc, append-nil, arith, >>=_some, length-append, length-take,
  length-replicate, take-append, drop-append, drop_all, ltb, lt→ltb, ltb-eq-false, ==_self, ==_ne,
  ◌==◌,
}
use libserverkit.ByteQueue.{ByteQueue, size_mod}
use libserverkit.Rpc.Packet.{Packet, bytes_of, encode_meta, encode, meta_size, packet_magic_num}
use libserverkit.Rpc.Packet.Laws.{
  length-bytes_of, overwrite-bytes_of, length-encode_meta, IsWellFormed, Fits,
}
use libserverkit.Rpc.Parser.{
  Parser, recv_header, recv_content, recv_finished, fail, again, resize, read_value, header_round,
  content_round, round, rounds, recv_packet,
}

-- The packet after its meta data was read, while `content_` is still the old one.
abbrev pub meta_of : Packet → List ℕ → Packet
meta_of p old = record p { content = old; recv_done = false }

abbrev pub received : Packet → Parser
received p = record { state = recv_header; packet = record p { recv_done = true } }

module _ (q : ByteQueue) where
  -- The first bytes held are read off.
  read_first :
      (s : ByteQueue.State q) (xs ys : List ℕ)
      → ByteQueue.Holds q s (xs ++ ys)
      → length xs < size_mod
      → (t : ByteQueue.State q) × (ByteQueue.read q (length xs) s ≡ some (xs, length xs, t))
        × ByteQueue.Holds q t ys
  read_first s xs ys h small =
      let (t, e, k) = q.read_lem (length xs) s (xs ++ ys) h small in
      (
        t,
        e ∙ ap₂ (λ o n. some (o, n, t)) (take-append xs ys) (omega (arith, length-append xs ys)),
        subst (ByteQueue.Holds q t) (drop-append xs ys) k,
      )

  read_value_lem :
      (k old v : ℕ) (s : ByteQueue.State q) (ys : List ℕ)
      → ByteQueue.Holds q s (bytes_of k v ++ ys)
      → v < 256 ^ k
      → k < size_mod
      → (t : ByteQueue.State q) × (read_value q k old s ≡ some (v, t)) × ByteQueue.Holds q t ys
  read_value_lem k old v s ys h fits small =
      let n = length-bytes_of k v in
      let (t, e, r) = read_first s (bytes_of k v) ys h (omega arith) in
      (
        t,
        >>=_some _ _ (ap (λ m. ByteQueue.read q m s) (sym n) ∙ e)
            (ap (λ m. some (m, t)) (overwrite-bytes_of k old v fits)),
        r,
      )

  -- The four reads of the meta data, the states between them named.
  record MetaRead (p old : Packet) (s : ByteQueue.State q) (ys : List ℕ) : Type 0 where
    s₁ : ByteQueue.State q
    s₂ : ByteQueue.State q
    s₃ : ByteQueue.State q
    t : ByteQueue.State q
    enough : ltb (q.size s) meta_size ≡ false
    e₁ : read_value q 1 old.magic s ≡ some (p.magic, s₁)
    e₂ : read_value q 8 old.guid s₁ ≡ some (p.guid, s₂)
    e₃ : read_value q 8 old.method_id s₂ ≡ some (p.method_id, s₃)
    e₄ : read_value q 4 old.size s₃ ≡ some (p.size, t)
    rest : ByteQueue.Holds q t ys

  meta_read :
      (p old : Packet) (s : ByteQueue.State q) (ys : List ℕ)
      → Fits p
      → ByteQueue.Holds q s (encode_meta p ++ ys)
      → MetaRead p old s ys
  unfolding encode_meta
  meta_read p old s ys w h =
      let size_ys = bytes_of 4 p.size ++ ys in
      let method_ys = bytes_of 8 p.method_id ++ size_ys in
      let guid_ys = bytes_of 8 p.guid ++ method_ys in
      let (s₁, e₁, h₁) =
        read_value_lem 1 old.magic p.magic s guid_ys
          (subst (ByteQueue.Holds q s) (simp append_assoc) h) w.magic_in (omega arith) in
      let (s₂, e₂, h₂) = read_value_lem 8 old.guid p.guid s₁ method_ys h₁ w.guid_in (omega arith) in
      let (s₃, e₃, h₃) =
        read_value_lem 8 old.method_id p.method_id s₂ size_ys h₂ w.method_in (omega arith) in
      let (t, e₄, h₄) = read_value_lem 4 old.size p.size s₃ ys h₃ w.size_in (omega arith) in
      record {
        s₁ = s₁;
        s₂ = s₂;
        s₃ = s₃;
        t = t;
        enough = ltb-eq-false _ _ (
            omega
              (arith, q.size_lem s _ h, length-append (encode_meta p) ys, length-encode_meta p));
        e₁ = e₁;
        e₂ = e₂;
        e₃ = e₃;
        e₄ = e₄;
        rest = h₄;
      }

  header_accepts :
      (p old : Packet) (s : ByteQueue.State q) (ys : List ℕ) (r : MetaRead p old s ys)
      → (p.magic == packet_magic_num) ≡ true
      → header_round q old s
        ≡ some (again (record { state = recv_content; packet = meta_of p old.content }, r.t))
  unfolding header_round
  header_accepts p old s ys r ok = rw (r.enough, r.e₁, r.e₂, r.e₃, r.e₄, ok)

  header_refuses :
      (p old : Packet) (s : ByteQueue.State q) (ys : List ℕ) (r : MetaRead p old s ys)
      → (p.magic == packet_magic_num) ≡ false
      → header_round q old s
        ≡ some (fail (record { state = recv_header; packet = meta_of p old.content }, r.t))
  unfolding header_round
  header_refuses p old s ys r bad = rw (r.enough, r.e₁, r.e₂, r.e₃, r.e₄, bad)

  header_lem :
      (p old : Packet) (s : ByteQueue.State q) (ys : List ℕ)
      → IsWellFormed p
      → ByteQueue.Holds q s (encode_meta p ++ ys)
      → (t : ByteQueue.State q) × (header_round q old s
          ≡ some (again (record { state = recv_content; packet = meta_of p old.content }, t)))
        × ByteQueue.Holds q t ys
  header_lem p old s ys w h =
      let r = meta_read p old s ys w.fits h in
      (
        r.t,
        header_accepts p old s ys r
            (ap (λ m. m == packet_magic_num) w.magic_is ∙ ==_self packet_magic_num),
        r.rest,
      )

  length-resize : (n : ℕ) (xs : List ℕ) → length (resize n xs) ≡ n
  length-resize n xs = omega (
    arith,
    length-append (take n xs) (replicate (n - length xs) 0),
    length-take n xs,
    length-replicate {A = ℕ} (n - length xs) 0,
  )

  content_lem :
      (p : Packet) (old : List ℕ) (s : ByteQueue.State q) (ys : List ℕ)
      → IsWellFormed p
      → ByteQueue.Holds q s (p.content ++ ys)
      → (t : ByteQueue.State q) × (content_round q (meta_of p old) s
          ≡ some (again (record { state = recv_finished; packet = meta_of p p.content }, t)))
        × ByteQueue.Holds q t ys
  unfolding content_round
  content_lem p old s ys w h =
      let full : ltb (q.size s) p.size ≡ false =
        ltb-eq-false _ _ (omega (arith, q.size_lem s _ h, length-append p.content ys, w.size_is)) in
      let (t, e, k) = read_first s p.content ys h (omega (arith, w.size_is, w.fits.size_in)) in
      (
        t,
        rw full (
            >>=_some _ _ (ap (λ n. ByteQueue.read q n s) w.size_is ∙ e) (
              ap (λ o. some (again (record { state = recv_finished; packet = meta_of p o }, t)))
                (ap (◌++◌ p.content) (
                    drop_all _ (resize p.size old)
                      (omega (arith, length-resize p.size old, w.size_is)))
                  ∙ append-nil p.content))),
        k,
      )

  -- From the second state on, with the content at hand.
  pub recv_rest :
      (p : Packet) (old : List ℕ) (s : ByteQueue.State q) (ys : List ℕ) (fuel : ℕ)
      → IsWellFormed p
      → ByteQueue.Holds q s (p.content ++ ys)
      → (t : ByteQueue.State q) × (rounds q
            (suc (suc fuel))
            (record { state = recv_content; packet = meta_of p old })
            s
          ≡ some (true, received p, t))
        × ByteQueue.Holds q t ys
  unfolding rounds round
  recv_rest p old s ys fuel w h =
      let (t, e, k) = content_lem p old s ys w h in (t, >>=_some _ _ e refl, k)

  -- A whole packet at the front is received, whatever follows it and whatever the parser held
  -- before.
  pub recv_packet_whole :
      (p old : Packet) (s : ByteQueue.State q) (ys : List ℕ)
      → IsWellFormed p
      → ByteQueue.Holds q s (encode p ++ ys)
      → (t : ByteQueue.State q) × (recv_packet q (record { state = recv_header; packet = old }) s
          ≡ some (true, received p, t))
        × ByteQueue.Holds q t ys
  unfolding recv_packet rounds round encode
  recv_packet_whole p old s ys w h =
      let (s₁, e₁, h₁) =
        header_lem p old s (p.content ++ ys) w
          (subst (ByteQueue.Holds q s) (append_assoc (encode_meta p) p.content ys) h) in
      let (t, e, k) = recv_rest p old.content s₁ ys 0 w h₁ in (t, >>=_some _ _ e₁ e, k)

  -- Fewer bytes than the meta data has: nothing is taken and nothing changes.
  pub recv_packet_short :
      (old : Packet) (s : ByteQueue.State q) (xs : List ℕ)
      → ByteQueue.Holds q s xs
      → length xs < meta_size
      → recv_packet q (record { state = recv_header; packet = old }) s
        ≡ some (false, record { state = recv_header; packet = old }, s)
  unfolding recv_packet rounds round header_round
  recv_packet_short old s xs h short =
      rw (lt→ltb (q.size s) meta_size (omega (arith, q.size_lem s xs h)))

  -- The meta data and a part of the content: the meta data is taken, and the parser waits.
  pub recv_packet_part :
      (p old : Packet) (s : ByteQueue.State q) (part : List ℕ)
      → IsWellFormed p
      → ByteQueue.Holds q s (encode_meta p ++ part)
      → length part < p.size
      → (t : ByteQueue.State q) × (recv_packet q (record { state = recv_header; packet = old }) s
          ≡ some (false, record { state = recv_content; packet = meta_of p old.content }, t))
        × ByteQueue.Holds q t part
  unfolding recv_packet rounds round content_round
  recv_packet_part p old s part w h short =
      let (t, e, k) = header_lem p old s part w h in
      let wait = lt→ltb (q.size t) p.size (omega (arith, q.size_lem t part k)) in
      (t, >>=_some _ _ e (rw wait), k)

  -- Where the meta data at the front has another magic number, `RecvPacket` fails, the meta data is
  -- gone from the queue, what follows it stays there, and the parser is in its first state again.
  pub recv_packet_bad_magic :
      (p old : Packet) (s : ByteQueue.State q) (ys : List ℕ)
      → Fits p
      → p.magic ≢ packet_magic_num
      → ByteQueue.Holds q s (encode_meta p ++ ys)
      → (t : ByteQueue.State q) × (recv_packet q (record { state = recv_header; packet = old }) s
          ≡ some (false, record { state = recv_header; packet = meta_of p old.content }, t))
        × ByteQueue.Holds q t ys
  unfolding recv_packet rounds round
  recv_packet_bad_magic p old s ys w bad h =
      let r = meta_read p old s ys w h in
      (
        r.t,
        >>=_some _ _ (header_refuses p old s ys r (==_ne p.magic packet_magic_num bad)) refl,
        r.rest,
      )
