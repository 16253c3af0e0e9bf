-- ===== src/Rpc/Stream/Pieces.antt =====
-- A stream of packets that arrives in pieces: one call of `OnRead` after another.
use libserverkit.Base.{
  ℕ, zero, suc, ◌+◌, ◌≤◌, ◌<◌, ◌≡◌, ◌≢◌, inl, inr, refl, ap, subst, ◌∙◌, List, [], ◌∷◌, ◌++◌,
  length, drop, All, append_assoc, append_split, length-append, length-drop, ltb, ltb→lt,
  Bool-cases, arith,
}
use libserverkit.ByteQueue.{ByteQueue}
use libserverkit.Rpc.Packet.{Packet, encode, encode_meta, meta_size}
use libserverkit.Rpc.Packet.Laws.{length-encode_meta, IsWellFormed}
use libserverkit.Rpc.Parser.{Parser, recv_header, recv_content}
use libserverkit.Rpc.Parser.Receive.{
  received, meta_of, recv_packet_whole, recv_packet_short, recv_packet_part,
}
use libserverkit.Rpc.Stream.{encode_all}
use libserverkit.Rpc.Stream.Waiting.{Reads, stops, goes_on, recv_packet_wait, recv_packet_rest}

pub length-encode : (p : Packet) → length (encode p) ≡ meta_size + length p.content
unfolding encode
length-encode p =
    length-append (encode_meta p) p.content ∙ ap (λ n. n + length p.content) (length-encode_meta p)

-- Bytes are still to come while the queue is shorter than what it begins.
unfinished : (xs b ys zs : List ℕ) → xs ++ b ≡ ys ++ zs → length xs < length ys → b ≢ []
unfinished xs b ys zs e l z =
    absurd (omega (arith, l, length-append xs b, length-append ys zs, ap length e, ap length z))

module _ (q : ByteQueue) {S E : Type 0} (handle : S → Packet → S × List E) (b : List ℕ) where
  abbrev Got : ℕ → Parser → ByteQueue.State q → S → List Packet → Type 0
  Got = Reads q handle b

  at_meta :
      (fuel : ℕ) (p : Packet) (ps : List Packet) (old : Packet) (s : ByteQueue.State q)
      (xs : List ℕ) (c : S)
      → All IsWellFormed (p ∷ ps)
      → ByteQueue.Holds q s xs
      → xs ++ b ≡ encode p ++ encode_all ps
      → meta_size ≤ length xs
      → length xs < length (encode p)
      → Got (suc fuel) (record { state = recv_header; packet = old }) s c (p ∷ ps)
  unfolding encode
  at_meta fuel p ps old s xs c w h e n l =
      let (f, g) =
        append_split xs b (encode_meta p) (p.content ++ encode_all ps)
          (e ∙ append_assoc (encode_meta p) p.content (encode_all ps))
          (omega (arith, length-encode_meta p)) in
      let part = drop (length (encode_meta p)) xs in
      let short : length part < length p.content = omega (
        arith,
        l,
        length-encode p,
        length-encode_meta p,
        length-drop (length (encode_meta p)) xs,
      ) in
      let (t, r, k) =
        recv_packet_part q p old s part w.0 (subst (ByteQueue.Holds q s) f h)
          (omega (arith, short, w.0.size_is)) in
      stops q handle b fuel (record { state = recv_header; packet = old })
        (record { state = recv_content; packet = meta_of p old.content }) s t c (p ∷ ps) r
        (inr (record {
          p = p;
          rest = ps;
          old = old.content;
          xs = part;
          place = refl;
          first = refl;
          held = k;
          whole = g;
          few = omega (arith, short, w.0.size_is, w.0.fits.size_in);
          short = short;
        }))
        (λ z. absurd (unfinished xs b (encode p) (encode_all ps) e l z))

  pub at_header :
      (fuel : ℕ) (ps : List Packet) (old : Packet) (s : ByteQueue.State q) (xs : List ℕ) (c : S)
      → length xs < fuel
      → All IsWellFormed ps
      → ByteQueue.Holds q s xs
      → xs ++ b ≡ encode_all ps
      → Got fuel (record { state = recv_header; packet = old }) s c ps
  at_header zero ps old s xs c l w h e = absurd (omega (arith, l))
  at_header (suc fuel) [] old s xs c l w h e =
      let none_left : length xs ≡ 0 = omega (arith, length-append xs b, ap length e) in
      stops q handle b fuel (record { state = recv_header; packet = old })
        (record { state = recv_header; packet = old }) s s c []
        (recv_packet_short q old s xs h (omega (arith, none_left)))
        (inl (record {
          old = old;
          xs = xs;
          place = refl;
          held = h;
          whole = e;
          few = omega (arith, none_left);
          short = omega (arith, none_left);
        }))
        (λ z. refl)
  at_header (suc fuel) (p ∷ ps) old s xs c l w h e = elim (Bool-cases (ltb (length xs) meta_size)) [
    | inl short ↦
        stops q handle b fuel (record { state = recv_header; packet = old })
          (record { state = recv_header; packet = old }) s s c (p ∷ ps)
          (recv_packet_short q old s xs h (ltb→lt (length xs) meta_size short))
          (inl (record {
            old = old;
            xs = xs;
            place = refl;
            held = h;
            whole = e;
            few = ground arith;
            short = ltb→lt (length xs) meta_size short;
          }))
          (λ z. absurd (
            unfinished xs b (encode p) (encode_all ps) e
              (omega (arith, ltb→lt (length xs) meta_size short, length-encode p)) z))
    | inr enough ↦ elim (Bool-cases (ltb (length xs) (length (encode p)))) [
      | inl part ↦
          at_meta fuel p ps old s xs c w h e (ground arith)
            (ltb→lt (length xs) (length (encode p)) part)
      | inr whole ↦
          let (f, g) = append_split xs b (encode p) (encode_all ps) e (ground arith) in
          let ys = drop (length (encode p)) xs in
          let not_short : length (encode p) ≤ length xs = ground arith in
          let (t, r, k) = recv_packet_whole q p old s ys w.0 (subst (ByteQueue.Holds q s) f h) in
          goes_on q handle b fuel (record { state = recv_header; packet = old }) s t c p ps r
            (at_header fuel ps (received p).packet t ys (handle c (received p).packet).0
              (omega (arith, l, length-encode p, length-drop (length (encode p)) xs, not_short)) w.1
              k g)
    ]
  ]

  pub at_content :
      (fuel : ℕ) (p : Packet) (ps : List Packet) (old : List ℕ) (s : ByteQueue.State q)
      (xs : List ℕ) (c : S)
      → length xs < fuel
      → All IsWellFormed (p ∷ ps)
      → ByteQueue.Holds q s xs
      → xs ++ b ≡ p.content ++ encode_all ps
      → 1 ≤ length p.content
      → Got fuel (record { state = recv_content; packet = meta_of p old }) s c (p ∷ ps)
  at_content zero p ps old s xs c l w h e n = absurd (omega (arith, l))
  at_content (suc fuel) p ps old s xs c l w h e n =
      elim (Bool-cases (ltb (length xs) (length p.content))) [
        | inl short ↦
            stops q handle b fuel (record { state = recv_content; packet = meta_of p old })
              (record { state = recv_content; packet = meta_of p old }) s s c (p ∷ ps)
              (recv_packet_wait q (meta_of p old) s xs h
                (omega (arith, ltb→lt (length xs) (length p.content) short, w.0.size_is)))
              (inr (record {
                p = p;
                rest = ps;
                old = old;
                xs = xs;
                place = refl;
                first = refl;
                held = h;
                whole = e;
                few = omega (
                  arith,
                  ltb→lt (length xs) (length p.content) short,
                  w.0.size_is,
                  w.0.fits.size_in,
                );
                short = ltb→lt (length xs) (length p.content) short;
              }))
              (λ z. absurd (
                unfinished xs b p.content (encode_all ps) e
                  (ltb→lt (length xs) (length p.content) short) z))
        | inr whole ↦
            let enough : length p.content ≤ length xs = ground arith in
            let (g, k) = append_split xs b p.content (encode_all ps) e enough in
            let ys = drop (length p.content) xs in
            let (t, r, i) = recv_packet_rest q p old s ys w.0 (subst (ByteQueue.Holds q s) g h) in
            goes_on q handle b fuel (record { state = recv_content; packet = meta_of p old }) s t c
              p ps r
              (at_header fuel ps (received p).packet t ys (handle c (received p).packet).0
                (omega (arith, l, n, enough, length-drop (length p.content) xs)) w.1 i k)
      ]
