-- ===== src/YQueue/Grow.antt =====
-- `Push` and an assignment to `Back` put a value behind those that are held; `UnPush` takes it back.
use libserverkit.Base.{
  ℕ, suc, ◌≤◌, ◌<◌, ◌≡◌, ◌≢◌, refl, ap, ap₂, ◌∙◌, sym, subst, false, inl, inr, List, [], ◌∷◌, ◌++◌,
  arith, update, update_self, update_ne, has, has_above, has-append, IsNodup-move, Bool-cases,
  eq_of_==, ◌==◌, All-append, All-mono, ==_ne,
}
use libserverkit.BufferList.Chain.{last-append}
use libserverkit.YQueue.{YQueue, Chunk, change, set_prev, set_next, push, set_back, fetch_chunk}
use libserverkit.YQueue.Chunks.{
  Chunks, IsChain-cong, IsChain-append, InOrder, held, held-cong, held_grow, held_chunk,
  held_stored, stored, change-values, change-next,
}
use libserverkit.YQueue.Memory.{Accounts, Accounts-new, Accounts-spare}
use libserverkit.YQueue.Rep.{Rep}

-- The memory after `Push` linked the chunk `sc` behind the chunk `e`.
abbrev pub linked : Chunks → ℕ → ℕ → Chunks
linked c e sc = change (change c e (set_next sc)) sc (set_prev e)

pub linked-values : (c : Chunks) (e sc a : ℕ) → (linked c e sc a).values ≡ (c a).values
linked-values c e sc a =
    change-values (change c e (set_next sc)) sc (set_prev e) a (λ k. refl)
    ∙ change-values c e (set_next sc) a (λ k. refl)

pub linked-next : (c : Chunks) (e sc a : ℕ) → a ≢ e → (linked c e sc a).next ≡ (c a).next
linked-next c e sc a h =
    change-next (change c e (set_next sc)) sc (set_prev e) a (λ k. refl)
    ∙ ap (λ (k : Chunk). k.next) (update_ne c e _ a h)

pub linked_end : (c : Chunks) (e sc : ℕ) → (linked c e sc e).next ≡ sc
linked_end c e sc =
    change-next (change c e (set_next sc)) sc (set_prev e) e (λ k. refl)
    ∙ ap (λ (k : Chunk). k.next) (update_self c e _)

module _ (n : ℕ) where
  stored-next : (c : Chunks) (e ep x a : ℕ) → (stored n c e ep x a).next ≡ (c a).next
  stored-next c e ep x a =
      change-next c e (λ (k : Chunk). record k { values = update k.values ep x }) a (λ k. refl)

  stored-values :
      (c c' : Chunks) (e ep x a : ℕ)
      → ((b : ℕ) → (c' b).values ≡ (c b).values)
      → (stored n c' e ep x a).values ≡ (stored n c e ep x a).values
  stored-values c c' e ep x a h = elim (Bool-cases (a == e)) [
    | inl i ↦ rw i (ap (λ m. update m ep x) (h e))
    | inr i ↦ rw i (h a)
  ]

  stored_self : (c : Chunks) (e ep x : ℕ) → (stored n c e ep x e).values ep ≡ x
  stored_self c e ep x =
      ap (λ (k : Chunk). k.values ep) (update_self c e _) ∙ update_self (c e).values ep x

  module _ (q : YQueue) (ps xs : List ℕ) (r : Rep n q ps xs) (x : ℕ) where
    -- What is held after the value was stored.
    grown :
        held n
          (stored n q.chunk q.end_chunk q.end_pos x)
          q.begin_pos
          (suc q.end_pos)
          q.begin_chunk
          ps
        ≡ xs ++ x ∷ []
    grown =
        let c = stored n q.chunk q.end_chunk q.end_pos x in
        let at = λ (e : ℕ).
          held n (stored n q.chunk e q.end_pos x) q.begin_pos q.end_pos q.begin_chunk ps ≡ xs in
        let before = subst at (sym r.end_last) (
          held_stored n q.chunk q.begin_pos q.end_pos q.begin_chunk ps x r.distinct r.ordered
          ∙ r.contents) in
        held_grow n c q.begin_pos q.end_pos q.begin_chunk ps r.ordered
        ∙ ap₂ (λ ys y. ys ++ y ∷ []) before
            (ap (λ e. (c e).values q.end_pos) (sym r.end_last)
              ∙ stored_self q.chunk q.end_chunk q.end_pos x)

    put_within :
        suc q.end_pos < n
        → Rep n
            (record q {
              chunk = stored n q.chunk q.end_chunk q.end_pos x;
              back_chunk = q.end_chunk;
              back_pos = q.end_pos;
              end_pos = suc q.end_pos;
            })
            ps
            (xs ++ x ∷ [])
    put_within h = record {
      distinct = r.distinct;
      no_null = r.no_null;
      made = r.made;
      spare = r.spare;
      spare_made = r.spare_made;
      memory = r.memory;
      chained =
          IsChain-cong q.chunk (stored n q.chunk q.end_chunk q.end_pos x) q.begin_chunk ps
            r.distinct (λ a e i. stored-next q.chunk q.end_chunk q.end_pos x a) r.chained;
      end_last = r.end_last;
      begin_in = r.begin_in;
      end_in = h;
      ordered = wider ps r.ordered;
      contents = grown;
    }
      where
        wider :
            (ps' : List ℕ)
            → InOrder q.begin_pos q.end_pos ps'
            → InOrder q.begin_pos (suc q.end_pos) ps'
        wider [] o = omega arith
        wider (p ∷ ps') o = tt

    -- The queue after `Push` went on to the chunk `sc`, and the value was stored.
    abbrev beyond : ℕ → ℕ → ℕ → YQueue
    beyond sc brk spare = record q {
      chunk = stored n (linked q.chunk q.end_chunk sc) q.end_chunk q.end_pos x;
      brk = brk;
      spare_chunk = spare;
      back_chunk = q.end_chunk;
      back_pos = q.end_pos;
      end_chunk = sc;
      end_pos = 0;
    }

    put_beyond :
        (sc brk spare : ℕ)
        → suc q.end_pos ≡ n
        → has sc (q.begin_chunk ∷ ps) ≡ false
        → (sc == 0) ≡ false
        → sc < brk
        → q.brk ≤ brk
        → spare < brk
        → has spare (q.begin_chunk ∷ (ps ++ sc ∷ [])) ≡ false
        → Accounts (q.begin_chunk ∷ (ps ++ sc ∷ [])) spare brk q.freed
        → Rep n (beyond sc brk spare) (ps ++ sc ∷ []) (xs ++ x ∷ [])
    put_beyond sc brk spare full fresh some_chunk sc_made more spare_made apart accounts =
        let p = q.begin_chunk in
        let e = q.end_chunk in
        let c' = stored n (linked q.chunk e sc) e q.end_pos x in
        let next = λ (a : ℕ) (h : a ≢ e).
          stored-next (linked q.chunk e sc) e q.end_pos x a ∙ linked-next q.chunk e sc a h in
        let values = λ (a : ℕ).
          stored-values q.chunk (linked q.chunk e sc) e q.end_pos x a
            (linked-values q.chunk e sc) in
        record {
          distinct = IsNodup-move [] sc (p ∷ ps) (fresh, r.distinct);
          no_null = ground (arith, has-append 0 (p ∷ ps) (sc ∷ []), r.no_null);
          made =
              All-append (λ a. a < brk) (p ∷ ps) (sc ∷ [])
                (All-mono (λ a. a < q.brk) (λ a. a < brk) (p ∷ ps) (λ a h. omega arith) r.made)
                (sc_made, tt);
          spare = apart;
          spare_made = spare_made;
          memory = accounts;
          chained =
              IsChain-append c' p ps sc
                (IsChain-cong q.chunk c' p ps r.distinct (λ a h i. next a (λ k. h (k ∙ r.end_last)))
                  r.chained)
                (ap (λ a. (c' a).next) (sym r.end_last)
                  ∙ stored-next (linked q.chunk e sc) e q.end_pos x e
                  ∙ linked_end q.chunk e sc);
          end_last = sym (last-append p ps sc);
          begin_in = r.begin_in;
          end_in = omega (arith, r.begin_in);
          ordered = beyond_order ps;
          contents =
              held_chunk n c' q.begin_pos p ps sc
              ∙ ap (λ k. held n c' q.begin_pos k p ps) (sym full)
              ∙ held-cong n (stored n q.chunk e q.end_pos x) c' q.begin_pos (suc q.end_pos) p ps
                  (λ a i. values a)
              ∙ grown;
        }
      where
        beyond_order : (ps' : List ℕ) → InOrder q.begin_pos 0 (ps' ++ sc ∷ [])
        beyond_order [] = tt
        beyond_order (p ∷ ps') = tt

    -- `Push`, and then the assignment to `Back`.
    pub put_refines : (qs : List ℕ) × Rep n (set_back x (push n q)) qs (xs ++ x ∷ [])
    unfolding set_back push fetch_chunk
    put_refines = elim (Bool-cases (suc q.end_pos == n)) [
      | inr goes_on ↦ rw goes_on (ps, put_within (ground (arith, r.end_in)))
      | inl full ↦
          let e = eq_of_== _ _ full in
          elim (Bool-cases (q.spare_chunk == 0)) [
            | inl none_spare ↦
                rw (full, none_spare)
                  (
                    ps ++ q.brk ∷ [],
                    put_beyond q.brk (suc q.brk) q.spare_chunk e
                        (has_above (q.begin_chunk ∷ ps) q.brk r.made)
                        (==_ne q.brk 0 (omega (arith, r.spare_made))) (omega arith) (omega arith)
                        (omega (arith, r.spare_made))
                        (ground (
                          arith,
                          has-append q.spare_chunk (q.begin_chunk ∷ ps) (q.brk ∷ []),
                          r.spare,
                          r.spare_made,
                        ))
                        (Accounts-new (q.begin_chunk ∷ ps) q.spare_chunk q.brk q.freed r.memory
                          r.made none_spare),
                  )
            | inr some_spare ↦
                rw (full, some_spare)
                  (
                    ps ++ q.spare_chunk ∷ [],
                    put_beyond q.spare_chunk q.brk 0 e r.spare some_spare r.spare_made (omega arith)
                        (omega (arith, r.spare_made))
                        (ground (
                          arith,
                          has-append 0 (q.begin_chunk ∷ ps) (q.spare_chunk ∷ []),
                          r.no_null,
                          some_spare,
                        ))
                        (Accounts-spare (q.begin_chunk ∷ ps) q.spare_chunk q.brk q.freed r.memory
                          r.spare some_spare),
                  )
          ]
    ]
