-- ===== src/Rpc/Stream/Arrivals.antt =====
-- A stream of packets, cut anywhere, is handled packet by packet.
use libserverkit.Base.{
  ℕ, suc, ◌^◌, ◌≤◌, ◌≡◌, ◌≢◌, inl, inr, true, refl, sym, ap, subst, ◌∙◌, some, List, [], ◌∷◌, ◌++◌,
  length, All, append_assoc, append-nil, >>=_some, arith,
}
use libserverkit.ByteQueue.{ByteQueue}
use libserverkit.Rpc.Packet.{Packet}
use libserverkit.Rpc.Packet.Laws.{IsWellFormed}
use libserverkit.Rpc.Parser.{Parser, recv_header}
use libserverkit.Rpc.Stream.{done_before, arrivals, handle_all, encode_all, joined}
use libserverkit.Rpc.Stream.Waiting.{Stands, Reads}
use libserverkit.Rpc.Stream.Resume.{kept, resume, encode_all_nil}

All-rest : (ps qs : List Packet) → All IsWellFormed (ps ++ qs) → All IsWellFormed qs
All-rest [] qs w = w
All-rest (p ∷ ps) qs w = All-rest ps qs w.1

-- A piece that one call of the system can bring.
abbrev pub IsPiece : List ℕ → Type 0
IsPiece piece = length piece ≤ 2 ^ 63

module _ (q : ByteQueue) {S E : Type 0} (handle : S → Packet → S × List E) where
  handle_all-append :
      (ps qs : List Packet) (c : S)
      → handle_all q handle (ps ++ qs) c ≡ (
          let (c', es) = handle_all q handle ps c in
          let (c'', es') = handle_all q handle qs c' in (c'', es ++ es'))
  handle_all-append [] qs c = refl
  handle_all-append (p ∷ ps) qs c =
      let (c1, es) = handle c (record p { recv_done = true }) in
      let (c2, es') = handle_all q handle ps c1 in
      let (c3, es'') = handle_all q handle qs c2 in
      ap (λ r. (r.0, es ++ r.1)) (handle_all-append ps qs c1)
      ∙ ap (λ fs. (c3, fs)) (sym (append_assoc es es' es''))

  -- A piece arrives, and `OnRead` runs.
  arrive :
      (m : Parser) (s : ByteQueue.State q) (c : S) (ps : List Packet) (piece b : List ℕ)
      → All IsWellFormed ps
      → IsPiece piece
      → Stands q m s ps (piece ++ b)
      → (t : ByteQueue.State q) × (ByteQueue.write q piece s ≡ some (length piece, t))
        × Reads q handle b (suc (q.size t)) m t c ps
  arrive m s c ps piece b w h st =
      let (xs, k, few) = kept q m s ps (piece ++ b) st in
      let (t, e, k') = q.write_lem piece s xs k (omega (arith, h, few)) in
      (t, e, resume q handle m s t c ps piece b w st k')

  -- What is left at the end: nothing.
  settled :
      (m : Parser) (s : ByteQueue.State q) (ps : List Packet)
      → Stands q m s ps []
      → ps ≡ []
      → ByteQueue.Holds q s []
  settled m s ps (inl r) e =
      subst (ByteQueue.Holds q s) (sym (append-nil r.xs) ∙ (r.whole ∙ ap encode_all e)) r.held
  settled m s ps (inr r) e = absurd (cons_ne_nil (sym r.first ∙ e))
    where
      cons_ne_nil : {p : Packet} {rest : List Packet} → ◌∷◌ p rest ≢ []
      cons_ne_nil h = cc

  arrivals_lem :
      (pieces : List (List ℕ)) (m : Parser) (s : ByteQueue.State q) (c : S) (ps : List Packet)
      → All IsWellFormed ps
      → All IsPiece pieces
      → Stands q m s ps (joined pieces)
      → (joined pieces ≡ [] → ps ≡ [])
      → (m' : Parser) × (t : ByteQueue.State q) × (arrivals q handle pieces m s c
          ≡ some (m', t, (handle_all q handle ps c).0, (handle_all q handle ps c).1))
        × ByteQueue.Holds q t []
  unfolding arrivals
  arrivals_lem [] m s c ps w h st d =
      let e = d refl in
      (
        m,
        s,
        ap (λ r. some (m, s, r.0, r.1)) (ap (λ rs. handle_all q handle rs c) (sym e)),
        settled m s ps st e,
      )
  arrivals_lem (piece ∷ pieces) m s c ps w h st d =
      let (t, e, r) = arrive m s c ps piece (joined pieces) w h.0 st in
      let c' = (handle_all q handle r.ds c).0 in
      let es = (handle_all q handle r.ds c).1 in
      let (m2, t2, e2, k2) =
        arrivals_lem pieces r.m' r.t c' r.left
          (All-rest r.ds r.left (subst (All IsWellFormed) r.parts w)) h.1 r.stands r.all_read in
      (
        m2,
        t2,
        >>=_some _ _ e (
            >>=_some _ _ r.returns (
              ap (done_before es) e2
              ∙ ap (λ x. some (m2, t2, x.0, x.1))
                  (sym (
                    ap (λ rs. handle_all q handle rs c) r.parts
                    ∙ handle_all-append r.ds r.left c)))),
        k2,
      )

  -- For well-formed packets whose bytes, one packet after another, arrive in any pieces, each of up to
  -- 2^63 bytes, on a new connection: with `OnRead` called after each piece, all the calls return, and
  -- together they do what handling the packets one after another does; no byte is left in the queue.
  pub arrivals_refine :
      (pieces : List (List ℕ)) (ps : List Packet) (old : Packet) (s : ByteQueue.State q) (c : S)
      → All IsWellFormed ps
      → All IsPiece pieces
      → joined pieces ≡ encode_all ps
      → ByteQueue.Holds q s []
      → (m' : Parser) × (t : ByteQueue.State q) × (arrivals q handle pieces
            (record { state = recv_header; packet = old })
            s
            c
          ≡ some (m', t, (handle_all q handle ps c).0, (handle_all q handle ps c).1))
        × ByteQueue.Holds q t []
  arrivals_refine pieces ps old s c w h e k =
      arrivals_lem pieces (record { state = recv_header; packet = old }) s c ps w h
        (inl (record {
          old = old;
          xs = [];
          place = refl;
          held = k;
          whole = e;
          few = omega arith;
          short = omega arith;
        }))
        (λ z. encode_all_nil ps (sym e ∙ z))
