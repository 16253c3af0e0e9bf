-- ===== src/Rpc/Stream/Resume.antt =====
-- From one call of `OnRead` to the next: bytes have come behind those that were left.
use libserverkit.Base.{
  ℕ, suc, ◌<◌, ◌≡◌, inl, inr, refl, sym, ap, subst, ◌∙◌, List, [], ◌∷◌, ◌++◌, length, All,
  append_assoc, length-append, arith,
}
use libserverkit.ByteQueue.{ByteQueue}
use libserverkit.Rpc.Packet.{Packet, encode}
use libserverkit.Rpc.Packet.Laws.{IsWellFormed}
use libserverkit.Rpc.Parser.{Parser, recv_content}
use libserverkit.Rpc.Parser.Receive.{meta_of}
use libserverkit.Rpc.Stream.{encode_all}
use libserverkit.Rpc.Stream.Waiting.{packet_room, Stands, Reads}
use libserverkit.Rpc.Stream.Pieces.{at_header, at_content, length-encode}

pub encode_all_nil : (ps : List Packet) → encode_all ps ≡ [] → ps ≡ []
encode_all_nil [] h = refl
encode_all_nil (p ∷ ps) h =
    absurd (omega (arith, ap length h, length-append (encode p) (encode_all ps), length-encode p))

module _ (q : ByteQueue) where
  -- The bytes in the queue.
  abbrev pub kept :
      (m : Parser) (s : ByteQueue.State q) (ps : List Packet) (b : List ℕ)
      → Stands q m s ps b
      → (xs : List ℕ) × ByteQueue.Holds q s xs × (length xs < packet_room)
  kept m s ps b (inl r) = (r.xs, r.held, r.few)
  kept m s ps b (inr r) = (r.xs, r.held, r.few)

  -- Where the queue stays empty nothing has changed.
  pub idle :
      (m : Parser) (s t : ByteQueue.State q) (ps : List Packet) (piece b : List ℕ)
      → (st : Stands q m s ps (piece ++ b)) → (kept m s ps (piece ++ b) st).0 ++ piece ≡ []
      → ByteQueue.Holds q t []
      → Stands q m t ps b × (b ≡ [] → ps ≡ [])
  idle m s t ps piece b (inl r) e h =
      let whole : b ≡ encode_all ps =
        ap (λ xs. xs ++ b) (sym e) ∙ (append_assoc r.xs piece b ∙ r.whole) in
      (
        inl (record {
          old = r.old;
          xs = [];
          place = r.place;
          held = h;
          whole = whole;
          few = omega arith;
          short = omega arith;
        }),
        λ z. encode_all_nil ps (sym whole ∙ z),
      )
  idle m s t ps piece b (inr r) e h =
      let whole : b ≡ r.p.content ++ encode_all r.rest =
        ap (λ xs. xs ++ b) (sym e) ∙ (append_assoc r.xs piece b ∙ r.whole) in
      (
        inr (record {
          p = r.p;
          rest = r.rest;
          old = r.old;
          xs = [];
          place = r.place;
          first = r.first;
          held = h;
          whole = whole;
          few = omega arith;
          short = omega (arith, r.short);
        }),
        λ z. absurd (
            omega (
              arith,
              r.short,
              ap length z,
              ap length whole,
              length-append r.p.content (encode_all r.rest),
            )),
      )

module _ (q : ByteQueue) {S E : Type 0} (handle : S → Packet → S × List E) where
  -- `OnRead` with the piece behind the bytes that were left.
  pub resume :
      (m : Parser) (s t : ByteQueue.State q) (c : S) (ps : List Packet) (piece b : List ℕ)
      → All IsWellFormed ps
      → (st : Stands q m s ps (piece ++ b))
      → ByteQueue.Holds q t ((kept q m s ps (piece ++ b) st).0 ++ piece)
      → Reads q handle b (suc (q.size t)) m t c ps
  resume m s t c ps piece b w (inl r) k =
      subst (λ n. Reads q handle b (suc (q.size t)) n t c ps) (sym r.place)
        (at_header q handle b (suc (q.size t)) ps r.old t (r.xs ++ piece) c
          (omega (arith, q.size_lem t (r.xs ++ piece) k)) w k (append_assoc r.xs piece b ∙ r.whole))
  resume m s t c ps piece b w (inr r) k =
      subst (λ n. Reads q handle b (suc (q.size t)) n t c ps) (sym r.place)
        (subst
          (Reads q handle b (suc (q.size t))
            (record { state = recv_content; packet = meta_of r.p r.old }) t c)
          (sym r.first)
          (at_content q handle b (suc (q.size t)) r.p r.rest r.old t (r.xs ++ piece) c
            (omega (arith, q.size_lem t (r.xs ++ piece) k)) (subst (All IsWellFormed) r.first w) k
            (append_assoc r.xs piece b ∙ r.whole) (omega (arith, r.short))))
