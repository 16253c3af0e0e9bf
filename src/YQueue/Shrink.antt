-- ===== src/YQueue/Shrink.antt =====
-- `Front` and `Pop` take the oldest value.
use libserverkit.Base.{
  ℕ, zero, suc, ◌-◌, ◌<◌, ◌≡◌, refl, ap, ◌∙◌, sym, subst, inl, inr, List, [], ◌∷◌, ◌++◌, arith,
  slice, Bool-cases, ltb, ltb→lt, eq_of_==, ◌==◌,
}
use libserverkit.YQueue.{YQueue, change, set_prev, give_back, pop, front}
use libserverkit.YQueue.Chunks.{
  Chunks, IsChain-cong, InOrder, held, held-cong, change-values, change-next,
}
use libserverkit.YQueue.Memory.{Accounts-pop}
use libserverkit.YQueue.Rep.{Rep}

slice_first : (m : ℕ → ℕ) (off k : ℕ) → 0 < k → slice m off k ≡ m off ∷ slice m (suc off) (k - 1)
unfolding slice
slice_first m off zero h = absurd (omega arith)
slice_first m off (suc k) h = ap (λ j. m off ∷ slice m (suc off) j) (omega arith)

not_nil : (m : ℕ → ℕ) (bp ep x : ℕ) (xs : List ℕ) → slice m bp (ep - bp) ≡ x ∷ xs → bp < ep
unfolding slice
not_nil m bp ep x xs e = elim (Bool-cases (ltb bp ep)) [
  | inl less ↦ ltb→lt bp ep less
  | inr more ↦
      let none_held : ep - bp ≡ 0 = ground arith in
      let e' = ap (slice m bp) (sym none_held) ∙ e in absurd (nil_cons e')
]
  where
    nil_cons : ◌≡◌ {A = List ℕ} [] (x ∷ xs) → ⊥
    nil_cons h = cc

split_cons : (x y : ℕ) (xs ys : List ℕ) → ◌≡◌ {A = List ℕ} (x ∷ xs) (y ∷ ys) → (x ≡ y) × (xs ≡ ys)
split_cons x y xs ys h = (cc, cc)

module _ (n : ℕ) where
  -- What is left in the chunk after its first value.
  pub held_pop :
      (c : Chunks) (bp ep p : ℕ) (ps : List ℕ) (x : ℕ) (xs : List ℕ)
      → bp < n
      → held n c bp ep p ps ≡ x ∷ xs
      → ((c p).values bp ≡ x) × (held n c (suc bp) ep p ps ≡ xs) × (ps ≡ [] → bp < ep)
  unfolding slice
  held_pop c bp ep p [] x xs h e =
      let m = (c p).values in
      let less = not_nil m bp ep x xs e in
      let first = slice_first m bp (ep - bp) (omega arith) in
      let size : ep - suc bp ≡ ep - bp - 1 = omega arith in
      let (head, tail) = split_cons (m bp) x (slice m (suc bp) (ep - bp - 1)) xs (sym first ∙ e) in
      (head, ap (slice m (suc bp)) size ∙ tail, λ k. less)
  held_pop c bp ep p (q ∷ ps) x xs h e =
      let m = (c p).values in
      let rest = held n c 0 ep q ps in
      let first = slice_first m bp (n - bp) (omega arith) in
      let size : n - suc bp ≡ n - bp - 1 = omega arith in
      let (head, tail) =
        split_cons (m bp) x (slice m (suc bp) (n - bp - 1) ++ rest) xs
          (ap (λ ys. ys ++ rest) (sym first) ∙ e) in
      (head, ap (λ k. slice m (suc bp) k ++ rest) size ∙ tail, λ k. cc)

  -- The queue after `Pop` where the chunk goes on, and where it is done with.
  pop_stays :
      (q : YQueue) (ps : List ℕ) (x : ℕ) (xs : List ℕ)
      → Rep n q ps (x ∷ xs)
      → suc q.begin_pos < n
      → Rep n (record q { begin_pos = suc q.begin_pos }) ps xs
  pop_stays q ps x xs r h =
      let (head, tail, less) =
        held_pop q.chunk q.begin_pos q.end_pos q.begin_chunk ps x xs r.begin_in r.contents in
      record {
        distinct = r.distinct;
        no_null = r.no_null;
        made = r.made;
        spare = r.spare;
        spare_made = r.spare_made;
        memory = r.memory;
        chained = r.chained;
        end_last = r.end_last;
        begin_in = h;
        end_in = r.end_in;
        ordered = ordered ps less;
        contents = tail;
      }
    where
      ordered :
          (ps' : List ℕ)
          → (ps' ≡ [] → q.begin_pos < q.end_pos)
          → InOrder (suc q.begin_pos) q.end_pos ps'
      ordered [] f = omega (arith, f refl)
      ordered (p ∷ ps') f = tt

  pop_moves :
      (q : YQueue) (p : ℕ) (ps : List ℕ) (x : ℕ) (xs : List ℕ)
      → Rep n q (p ∷ ps) (x ∷ xs)
      → suc q.begin_pos ≡ n
      → Rep n
          (record q {
            begin_chunk = p;
            begin_pos = 0;
            chunk = change q.chunk p (set_prev 0);
            spare_chunk = q.begin_chunk;
            freed = give_back q.spare_chunk q.freed;
          })
          ps
          xs
  unfolding slice
  pop_moves q p ps x xs r h =
      let c' = change q.chunk p (set_prev 0) in
      let (head, tail, less) =
        held_pop q.chunk q.begin_pos q.end_pos q.begin_chunk (p ∷ ps) x xs r.begin_in r.contents in
      let none_left : n - suc q.begin_pos ≡ 0 = omega arith in
      let rest = held n q.chunk 0 q.end_pos p ps in
      record {
        distinct = r.distinct.1;
        no_null = ground (arith, r.no_null);
        made = r.made.1;
        spare = r.distinct.0;
        spare_made = r.made.0;
        memory =
            Accounts-pop q.begin_chunk (p ∷ ps) q.spare_chunk q.brk q.freed r.memory r.spare
              r.no_null r.spare_made;
        chained =
            IsChain-cong q.chunk c' p ps r.distinct.1
              (λ a e i. change-next q.chunk p (set_prev 0) a (λ k. refl)) r.chained.1;
        end_last = r.end_last;
        begin_in = omega (arith, r.begin_in);
        end_in = r.end_in;
        ordered = start ps;
        contents =
            held-cong n q.chunk c' 0 q.end_pos p ps
              (λ a i. change-values q.chunk p (set_prev 0) a (λ k. refl))
            ∙ ap (λ k. slice (q.chunk q.begin_chunk).values (suc q.begin_pos) k ++ rest)
                (sym none_left)
            ∙ tail;
      }
    where
      start : (ps' : List ℕ) → InOrder 0 q.end_pos ps'
      start [] = omega arith
      start (p' ∷ ps') = tt

  pub pop_refines :
      (q : YQueue) (ps : List ℕ) (x : ℕ) (xs : List ℕ)
      → Rep n q ps (x ∷ xs)
      → (front q ≡ x) × ((qs : List ℕ) × Rep n (pop n q) qs xs)
  unfolding front pop
  pop_refines q ps x xs r = (
    (held_pop q.chunk q.begin_pos q.end_pos q.begin_chunk ps x xs r.begin_in r.contents).0,
    elim (Bool-cases (suc q.begin_pos == n)) [
      | inl done ↦ rw done (moves ps r (eq_of_== _ _ done))
      | inr more ↦ rw more (ps, pop_stays q ps x xs r (ground (arith, r.begin_in)))
    ],
  )
    where
      moves :
          (ps' : List ℕ)
          → Rep n q ps' (x ∷ xs)
          → suc q.begin_pos ≡ n
          → (qs : List ℕ) × Rep n
              (record q {
                begin_chunk = (q.chunk q.begin_chunk).next;
                begin_pos = 0;
                chunk = change q.chunk (q.chunk q.begin_chunk).next (set_prev 0);
                spare_chunk = q.begin_chunk;
                freed = give_back q.spare_chunk q.freed;
              })
              qs
              xs
      moves [] r' e =
          let less =
            (held_pop q.chunk q.begin_pos q.end_pos q.begin_chunk [] x xs r'.begin_in
              r'.contents).2 in
          absurd (omega (arith, less refl, r'.end_in))
      moves (p ∷ ps') r' e =
          let at = λ (a : ℕ).
            Rep n
              (record q {
                begin_chunk = a;
                begin_pos = 0;
                chunk = change q.chunk a (set_prev 0);
                spare_chunk = q.begin_chunk;
                freed = give_back q.spare_chunk q.freed;
              })
              ps' xs in
          (ps', subst at (sym r'.chained.0) (pop_moves q p ps' x xs r' e))
