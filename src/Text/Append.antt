-- ===== src/Text/Append.antt =====
-- `stringAppendV` ends, and appends the text that is to be printed unless that is too long.
use libserverkit.Base.{
  ℕ, zero, suc, ◌+◌, ◌-◌, ◌*◌, ◌≤◌, ◌<◌, ◌≡◌, ◌⊎◌, refl, ap, subst, ◌∙◌, inl, inr, true, false,
  Option, none, some, List, ◌++◌, take_all, length, ltb, leb, ◌%◌, ◌^◌, if◌then◌else◌, arith,
  Bool-cases, ltb→lt, lt→ltb, ltb-eq-false,
}
use libserverkit.Text.{
  Print, int_limit, returned, thrown, append_loop, string_append_v, did_fit, appended,
  max_append_size, small_fixed_size,
}

-- `vsnprintf` prints `text`: into a buffer that is longer, all of it; for any other it gives the length
-- of the text, as the standard says, or a negative number, as older libraries do.
abbrev pub Prints : Print → List ℕ → Type 0
Prints print text =
    ((size : ℕ) → length text < size → print size ≡ (some (length text), text))
    × ((size : ℕ)
        → size ≤ length text
        → ((print size).0 ≡ none) ⊎ ((print size).0 ≡ some (length text)))

-- The text is appended if it is shorter than 32 MB.
abbrev pub outcome : List ℕ → List ℕ → List ℕ
outcome dst text = if ltb (length text) max_append_size then dst ++ text else dst

module _ (print : Print) (text dst : List ℕ) (prints : Prints print text)
    (printable : length text + 1 < int_limit) where
  appended_all : (size : ℕ) → length text < size → appended dst (print size) ≡ dst ++ text
  appended_all size h =
      ap (appended dst) (prints.0 size h)
      ∙ ap (λ xs. dst ++ xs) (take_all (length text) text (omega arith))

  fits : (size : ℕ) → length text < size → did_fit (print size).0 size ≡ true
  fits size h =
      ap (λ (r : Option ℕ × List ℕ). did_fit r.0 size) (prints.0 size h)
      ∙ lt→ltb (length text) size h

  no_fit : (size : ℕ) → size ≤ length text → did_fit (print size).0 size ≡ false
  no_fit size h = elim (prints.1 size h) [
    | inl e ↦ ap (λ r. did_fit r size) e
    | inr e ↦ ap (λ r. did_fit r size) e ∙ ltb-eq-false (length text) size h
  ]

  -- The round after `vsnprintf` gave the length.
  exact_round :
      (fuel size : ℕ)
      → append_loop print (suc fuel) size (some (length text)) dst
        ≡ some (returned (outcome dst text))
  unfolding append_loop
  exact_round fuel size =
      let whole : (length text + 1) % 2 ^ 32 ≡ length text + 1 = omega arith in
      let an_int : leb int_limit (length text + 1) ≡ false = ground arith in
      elim (Bool-cases (ltb max_append_size (length text + 1))) [
        | inl long ↦
            let big : ltb (length text) max_append_size ≡ false = ground arith in
            rw whole (rw (an_int, long, big) refl)
        | inr short ↦
            let small : ltb (length text) max_append_size ≡ true = ground arith in
            rw whole (
              rw (an_int, short, fits (length text + 1) (omega arith), small)
                (ap (λ xs. some (returned xs)) (appended_all (length text + 1) (omega arith))))
      ]

-- The sizes that doubling goes through.
abbrev grown : ℕ → ℕ
grown zero = small_fixed_size
grown (suc j) = grown j * 2

grown-le : (i j : ℕ) → grown j ≤ grown (i + j)
grown-le zero j = ap-le (omega arith)
  where
    ap-le : j ≡ zero + j → grown j ≤ grown (zero + j)
    ap-le e = subst (λ n. grown j ≤ grown n) e (omega arith)
grown-le (suc i) j =
    let next : suc (i + j) ≡ suc i + j = omega arith in
    subst (λ n. grown j ≤ grown n) next (omega (arith, grown-le i j))

module _ (print : Print) (text dst : List ℕ) (prints : Prints print text)
    (printable : length text + 1 < int_limit) where
  -- With `k` more doublings to the largest size.
  double_rounds :
      (k j : ℕ) (r : Option ℕ)
      → k + j ≡ 15
      → grown j ≤ length text
      → (r ≡ none) ⊎ (r ≡ some (length text))
      → append_loop print (suc k) (grown j) r dst ≡ some (returned (outcome dst text))
  unfolding append_loop
  double_rounds k j r e long (inr exact) =
      ap (λ (q : Option ℕ). append_loop print (suc k) (grown j) q dst) exact
      ∙ exact_round print text dst prints printable k (grown j)
  double_rounds zero j r e long (inl older) =
      let last : j ≡ 15 = omega arith in
      let size : grown j ≡ max_append_size = ap grown last in
      let big : ltb (length text) max_append_size ≡ false = ground arith in
      let whole : grown j * 2 % 2 ^ 32 ≡ grown j * 2 = omega (arith, size) in
      let an_int : leb int_limit (grown j * 2) ≡ false = ground (arith, size) in
      let over : ltb max_append_size (grown j * 2) ≡ true = ground arith in
      ap (λ (q : Option ℕ). append_loop print 1 (grown j) q dst) older
      ∙ rw whole (rw (an_int, over, big) refl)
  double_rounds (suc k) j r e long (inl older) =
      let last : k + suc j ≡ 15 = omega arith in
      let most : grown (suc j) ≤ max_append_size =
        subst (λ n. grown (suc j) ≤ grown n) last (grown-le k (suc j)) in
      let whole : grown j * 2 % 2 ^ 32 ≡ grown j * 2 = omega (arith, most) in
      let an_int : leb int_limit (grown j * 2) ≡ false = ground (arith, most) in
      let within : ltb max_append_size (grown j * 2) ≡ false = ground arith in
      let step = ap (λ (q : Option ℕ). append_loop print (suc (suc k)) (grown j) q dst) older in
      elim (Bool-cases (ltb (length text) (grown (suc j)))) [
        | inl short ↦
            let enough : length text < grown j * 2 = ltb→lt _ _ short in
            let small : ltb (length text) max_append_size ≡ true = ground arith in
            step
            ∙ rw whole (
                rw
                  (an_int, within, fits print text dst prints printable (grown j * 2) enough, small)
                  (ap (λ xs. some (returned xs))
                    (appended_all print text dst prints printable (grown j * 2) enough)))
        | inr more ↦
            let still : grown j * 2 ≤ length text = ground arith in
            step
            ∙ rw whole (
                rw (an_int, within, no_fit print text dst prints printable (grown j * 2) still)
                  (double_rounds k (suc j) (print (grown j * 2)).0 last still
                    (prints.1 (grown j * 2) still)))
      ]

  -- For a `vsnprintf` that prints a text of fewer than 2^31 - 1 bytes: within 16 rounds of its loop
  -- `stringAppendV` returns, and it has appended the whole text, unless that is 32 MB long or longer,
  -- when it has appended nothing.
  pub string_append_v_lem : string_append_v print 16 dst ≡ some (returned (outcome dst text))
  unfolding string_append_v
  string_append_v_lem = elim (Bool-cases (ltb (length text) small_fixed_size)) [
    | inl short ↦
        let enough : length text < small_fixed_size = ltb→lt _ _ short in
        let small : ltb (length text) max_append_size ≡ true = ground arith in
        rw (fits print text dst prints printable small_fixed_size enough, small)
          (ap (λ xs. some (returned xs))
            (appended_all print text dst prints printable small_fixed_size enough))
    | inr more ↦
        let still : small_fixed_size ≤ length text = ground arith in
        rw (no_fit print text dst prints printable small_fixed_size still) (
          double_rounds 15 0 (print small_fixed_size).0 refl still
            (prints.1 small_fixed_size still))
  ]

-- For a text of 2^31 - 1 bytes, the most that an `int` can tell, the size of the next buffer is
-- negative, and `stringAppendV` throws.
throws :
    (print : Print) (fuel : ℕ) (dst : List ℕ)
    → (print small_fixed_size).0 ≡ some (2 ^ 31 - 1)
    → string_append_v print (suc fuel) dst ≡ some thrown
unfolding string_append_v append_loop
throws print fuel dst e = rw e refl
