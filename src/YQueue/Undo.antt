-- ===== src/YQueue/Undo.antt =====
-- `UnPush` takes back the last `Push`.
use libserverkit.Base.{
  ℕ, suc, ◌-◌, ◌≤◌, ◌<◌, ◌≡◌, ◌≢◌, refl, ap, ◌∙◌, sym, subst, false, inl, inr, not, List, ◌∷◌,
  arith, update_self, update_ne, has, Bool-cases, eq_of_==, ◌==◌, if◌then◌else◌, All-mono, ==_ne,
}
use libserverkit.YQueue.{YQueue, Chunk, change, set_next, give_back, push, un_push, fetch_chunk}
use libserverkit.YQueue.Chunks.{Chunks, IsChain-cong, InOrder, held, held-cong, change-values}
use libserverkit.YQueue.Grow.{linked, linked_end, linked-values, linked-next}
use libserverkit.YQueue.Memory.{Accounts, Accounts-new, Accounts-spare, Accounts-undo}
use libserverkit.YQueue.Rep.{Rep}

linked_prev : (c : Chunks) (e sc : ℕ) → (linked c e sc sc).prev ≡ e
linked_prev c e sc = ap (λ (k : Chunk). k.prev) (update_self (change c e (set_next sc)) sc _)

module _ (n : ℕ) (q : YQueue) (ps xs : List ℕ) (r : Rep n q ps xs) where
  -- The queue as it was, but for the back position, and memory that was fetched.
  abbrev undone : ℕ → ℕ → ℕ → ℕ → ℕ → ℕ → YQueue
  undone sc brk spare back_chunk back_pos end_pos = record q {
    chunk = change (linked q.chunk q.end_chunk sc) q.end_chunk (set_next 0);
    brk = brk;
    freed = give_back sc q.freed;
    spare_chunk = spare;
    back_chunk = back_chunk;
    back_pos = back_pos;
    end_pos = end_pos;
  }

  undone-Rep :
      (sc brk spare back_chunk back_pos end_pos : ℕ)
      → end_pos ≡ q.end_pos
      → q.brk ≤ brk
      → spare < brk
      → has spare (q.begin_chunk ∷ ps) ≡ false
      → Accounts (q.begin_chunk ∷ ps) spare brk (give_back sc q.freed)
      → Rep n (undone sc brk spare back_chunk back_pos end_pos) ps xs
  undone-Rep sc brk spare back_chunk back_pos end_pos same more made apart accounts =
      let p = q.begin_chunk in
      let c' = change (linked q.chunk q.end_chunk sc) q.end_chunk (set_next 0) in
      let next = λ (a : ℕ) (h : a ≢ q.end_chunk).
        ap (λ (k : Chunk). k.next)
          (update_ne (linked q.chunk q.end_chunk sc) q.end_chunk
            (set_next 0 (linked q.chunk q.end_chunk sc q.end_chunk)) a h)
        ∙ linked-next q.chunk q.end_chunk sc a h in
      let values = λ (a : ℕ).
        change-values (linked q.chunk q.end_chunk sc) q.end_chunk (set_next 0) a (λ k. refl)
        ∙ linked-values q.chunk q.end_chunk sc a in
      record {
        distinct = r.distinct;
        no_null = r.no_null;
        made = All-mono (λ a. a < q.brk) (λ a. a < brk) (p ∷ ps) (λ a h. omega arith) r.made;
        spare = apart;
        spare_made = made;
        memory = accounts;
        chained =
            IsChain-cong q.chunk c' p ps r.distinct (λ a h i. next a (λ k. h (k ∙ r.end_last)))
              r.chained;
        end_last = r.end_last;
        begin_in = r.begin_in;
        end_in = omega (arith, r.end_in);
        ordered = subst (λ k. InOrder q.begin_pos k ps) (sym same) r.ordered;
        contents =
            ap (λ k. held n c' q.begin_pos k p ps) same
            ∙ held-cong n q.chunk c' q.begin_pos q.end_pos p ps (λ a i. values a)
            ∙ r.contents;
      }

  kept-Rep :
      (back_chunk back_pos end_pos : ℕ)
      → end_pos ≡ q.end_pos
      → Rep n (record q { back_chunk = back_chunk; back_pos = back_pos; end_pos = end_pos }) ps xs
  kept-Rep back_chunk back_pos end_pos same = record {
    distinct = r.distinct;
    no_null = r.no_null;
    made = r.made;
    spare = r.spare;
    spare_made = r.spare_made;
    memory = r.memory;
    chained = r.chained;
    end_last = r.end_last;
    begin_in = r.begin_in;
    end_in = omega (arith, r.end_in);
    ordered = subst (λ k. InOrder q.begin_pos k ps) (sym same) r.ordered;
    contents = ap (λ k. held n q.chunk q.begin_pos k q.begin_chunk ps) same ∙ r.contents;
  }

  -- The queue after `Push` went on to the chunk `sc`.
  abbrev further : ℕ → ℕ → ℕ → YQueue
  further sc brk spare = record q {
    chunk = linked q.chunk q.end_chunk sc;
    brk = brk;
    spare_chunk = spare;
    back_chunk = q.end_chunk;
    back_pos = q.end_pos;
    end_chunk = sc;
    end_pos = 0;
  }

  un_further :
      (sc brk spare : ℕ)
      → suc q.end_pos ≡ n
      → q.brk ≤ brk
      → spare < brk
      → has spare (q.begin_chunk ∷ ps) ≡ false
      → Accounts (q.begin_chunk ∷ ps) spare brk (give_back sc q.freed)
      → Rep n (un_push n (further sc brk spare)) ps xs
  unfolding un_push
  un_further sc brk spare full more made apart accounts =
      let f = further sc brk spare in
      let goes_back = not (q.end_pos == 0) in
      let pos = if goes_back then q.end_pos - 1 else n - 1 in
      let chunk = if goes_back then q.end_chunk else (f.chunk q.end_chunk).prev in
      let at = λ (e last : ℕ).
        Rep n
          (record (undone sc brk spare chunk pos (n - 1)) {
            chunk = change (linked q.chunk q.end_chunk sc) e (set_next 0);
            end_chunk = e;
            freed = give_back last q.freed;
          })
          ps xs in
      subst (λ e. at e (linked q.chunk q.end_chunk sc e).next)
        (sym (linked_prev q.chunk q.end_chunk sc))
        (subst (at q.end_chunk) (sym (linked_end q.chunk q.end_chunk sc))
          (undone-Rep sc brk spare chunk pos (n - 1) (omega arith) more made apart accounts))

  un_stays :
      Rep n
        (un_push n
          (record q { back_chunk = q.end_chunk; back_pos = q.end_pos; end_pos = suc q.end_pos }))
        ps
        xs
  unfolding un_push
  un_stays =
      let moved : (suc q.end_pos == 0) ≡ false = ==_ne _ _ (omega arith) in
      let goes_back = not (q.end_pos == 0) in
      let pos = if goes_back then q.end_pos - 1 else n - 1 in
      let chunk = if goes_back then q.end_chunk else (q.chunk q.end_chunk).prev in
      rw moved (kept-Rep chunk pos (suc q.end_pos - 1) (omega arith))

  pub undo_refines : Rep n (un_push n (push n q)) ps xs
  unfolding push fetch_chunk
  undo_refines = elim (Bool-cases (suc q.end_pos == n)) [
    | inr goes_on ↦ rw goes_on un_stays
    | inl full ↦
        let e = eq_of_== _ _ full in
        let chain = q.begin_chunk ∷ ps in
        elim (Bool-cases (q.spare_chunk == 0)) [
          | inl none_spare ↦
              rw (full, none_spare)
                (un_further q.brk (suc q.brk) q.spare_chunk e (omega arith)
                  (omega (arith, r.spare_made)) r.spare
                  (Accounts-undo chain q.brk q.spare_chunk (suc q.brk) q.freed
                    (Accounts-new chain q.spare_chunk q.brk q.freed r.memory r.made none_spare)
                    (==_ne q.brk 0 (omega (arith, r.spare_made))) (omega arith)
                    (==_ne q.spare_chunk q.brk (omega (arith, r.spare_made)))))
          | inr some_spare ↦
              rw (full, some_spare)
                (un_further q.spare_chunk q.brk 0 e (omega arith) (omega (arith, r.spare_made))
                  r.no_null
                  (Accounts-undo chain q.spare_chunk 0 q.brk q.freed
                    (Accounts-spare chain q.spare_chunk q.brk q.freed r.memory r.spare some_spare)
                    some_spare r.spare_made (==_ne 0 q.spare_chunk (ground arith))))
        ]
  ]
