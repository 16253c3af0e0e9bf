-- ===== src/GlobalId/Batch.antt =====
-- The identifiers of a batch.
use native.Mathlib.Nat.{
  pow-suc, mul-add, mul-one, mul_left_comm, mul_assoc, mul_right_comm, suc-mul,
}
use libserverkit.Base.{
  ℕ, zero, suc, ◌+◌, ◌-◌, ◌*◌, ◌/◌, ◌%◌, ◌^◌, ◌≤◌, ◌<◌, ◌≡◌, ◌≢◌, refl, subst, sym, ap, ap₂, ◌∙◌,
  false, List, [], ◌∷◌, ◌==◌, has, IsNodup, length, arith, ==_ne,
}
use libserverkit.GlobalId.{
  IdGenerator, num_ids_in_batch, new_random, reset, take_id, new_id, new_ids, set_low_bit,
}

odd_times : (d m : ℕ) → d * (2 * m + 1) ≡ 2 * (d * m) + d
odd_times d m = mul-add d (2 * m) 1 ∙ ap₂ ◌+◌ (mul_left_comm d 2 m) (mul-one d)

times_power : (q k : ℕ) → q * 2 ^ suc k ≡ (q * 2 ^ k) * 2
times_power q k = ap (λ p. q * p) (pow-suc 2 k) ∙ sym (mul_assoc q (2 ^ k) 2)

even : (k d m q : ℕ) → d * (2 * m + 1) ≡ q * 2 ^ suc k → d ≡ (d / 2) * 2
even k d m q h = omega (arith, odd_times d m, times_power q k)

halves : (k d m q : ℕ) → d * (2 * m + 1) ≡ q * 2 ^ suc k → (d / 2) * (2 * m + 1) ≡ q * 2 ^ k
halves k d m q h = omega (
  arith,
  odd_times d m,
  odd_times (d / 2) m,
  times_power q k,
  even k d m q h,
  ap (λ j. j * m) (even k d m q h),
  mul_right_comm (d / 2) 2 m,
)

-- What a power of two divides after a product by an odd number, it divided before.
odd_divides : (k d m q : ℕ) → d * (2 * m + 1) ≡ q * 2 ^ k → (e : ℕ) × (d ≡ e * 2 ^ k)
odd_divides zero d m q h = (d, omega arith)
odd_divides (suc k) d m q h =
    let (e, r) = odd_divides k (d / 2) m q (halves k d m q h) in
    (e, omega (arith, r, even k d m q h, times_power e k))

abbrev IsOdd : ℕ → Type 0
IsOdd c = (m : ℕ) × (c ≡ 2 * m + 1)

-- Fewer than 4096 steps of an odd width do not come back to where they began.
no_return :
    (l i m : ℕ) → 1 ≤ i → i < num_ids_in_batch → l ≢ (l + i * (2 * m + 1)) % num_ids_in_batch
no_return l i m low high e =
    let (f, r) = odd_divides 12 i m ((l + i * (2 * m + 1)) / 4096 - l / 4096) (omega arith) in
    omega arith

-- The identifiers that follow, `n` of them, from `lower_bits_` on.
series : ℕ → ℕ → ℕ → ℕ → List ℕ
series upper l c zero = []
series upper l c (suc n) = let l' = (l + c) % num_ids_in_batch in (upper + l') ∷ series upper l' c n

has-series :
    (n upper l c x : ℕ)
    → ((i : ℕ) → 1 ≤ i → i ≤ n → x ≢ upper + (l + i * c) % num_ids_in_batch)
    → has x (series upper l c n) ≡ false
unfolding series
has-series zero upper l c x apart = refl
has-series (suc n) upper l c x apart = rw head_differs (
    has-series n upper ((l + c) % num_ids_in_batch) c x
      (λ i low high e. apart (suc i) (omega arith) (omega arith) (omega (arith, suc-mul i c))))
  where
    head_differs : (x == upper + (l + c) % num_ids_in_batch) ≡ false
    head_differs = ==_ne _ _ (λ e. apart 1 (omega arith) (omega arith) (omega arith))

series-IsNodup : (n upper l m : ℕ) → n ≤ num_ids_in_batch → IsNodup (series upper l (2 * m + 1) n)
unfolding series
series-IsNodup zero upper l m h = tt
series-IsNodup (suc n) upper l m h = (
  has-series n upper l' c (upper + l')
      (λ i low high e. no_return l' i m low (omega arith) (omega arith)),
  series-IsNodup n upper l' m (omega arith),
)
  where
    c : ℕ
    c = 2 * m + 1

    l' : ℕ
    l' = (l + c) % num_ids_in_batch

module _ (hash : ℕ → ℕ → ℕ) (seed_of_host : ℕ) where
  new_ids-series :
      (tss : List (ℕ × ℕ)) (g : IdGenerator)
      → length tss ≤ g.remaining
      → new_ids hash seed_of_host tss g ≡ series g.upper_bits g.lower_bits g.increment (length tss)
  unfolding series new_ids new_id take_id
  new_ids-series [] g h = refl
  new_ids-series (ts ∷ tss) g h =
      rw left (ap (◌∷◌ (take_id g).0) (new_ids-series tss (take_id g).1 (omega arith)))
    where
      left : (g.remaining == 0) ≡ false
      left = ==_ne _ _ (omega arith)

  new_ids-reset :
      (ts : ℕ × ℕ) (tss : List (ℕ × ℕ)) (g : IdGenerator)
      → g.remaining ≡ 0
      → new_ids hash seed_of_host (ts ∷ tss) g
        ≡ new_ids hash seed_of_host (ts ∷ tss) (reset hash seed_of_host ts g)
  unfolding new_ids new_id reset
  new_ids-reset ts tss g h = rw h

  set_low_bit-IsOdd : (n : ℕ) → IsOdd (set_low_bit n)
  set_low_bit-IsOdd n = (n / 2, ground arith)

  reset_batch :
      (ts : ℕ × ℕ) (tss : List (ℕ × ℕ)) (g : IdGenerator)
      → g.remaining ≡ 0
      → suc (length tss) ≤ num_ids_in_batch
      → IsNodup (new_ids hash seed_of_host (ts ∷ tss) g)
  unfolding reset
  reset_batch ts tss g e h =
      let r = reset hash seed_of_host ts g in
      let same = new_ids-reset ts tss g e ∙ new_ids-series (ts ∷ tss) r (omega arith) in
      let (m, odd) = set_low_bit-IsOdd (
        (new_random hash seed_of_host ts.1 (new_random hash seed_of_host ts.0 g)).seed
        % num_ids_in_batch) in
      subst IsNodup (sym same) (
        subst (λ c. IsNodup (series r.upper_bits r.lower_bits c (suc (length tss)))) (sym odd)
          (series-IsNodup (suc (length tss)) r.upper_bits r.lower_bits m h))

  -- From a generator that has no identifier left, as a new one, the next identifiers, up to 4096 of
  -- them, are all different, whatever the hash and the clock give.
  pub new_ids-IsNodup :
      (tss : List (ℕ × ℕ)) (g : IdGenerator)
      → g.remaining ≡ 0
      → length tss ≤ num_ids_in_batch
      → IsNodup (new_ids hash seed_of_host tss g)
  unfolding new_ids
  new_ids-IsNodup [] g e h = tt
  new_ids-IsNodup (ts ∷ tss) g e h = reset_batch ts tss g e h
