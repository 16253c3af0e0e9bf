-- ===== src/Base/Lists.antt =====
-- Lists measured and indexed by native numbers, under the library's names.
use Prim.Native.Nat.{ℕ, zero, suc, ◌+◌, ◌-◌, ◌≤◌, min}
use mathlib.Core.Path.{◌≡◌, refl, sym, ap, ◌∙◌}
use mathlib.Core.List.{List, [], ◌∷◌, ◌++◌}
use native.Mathlib.Omega.{arith}
use native.Mathlib.Nat.{zero-add, suc-add}

module _ {ℓ} {A : Type ℓ} where
  abbrev pub length : List A → ℕ
  length [] = 0
  length (x ∷ xs) = suc (length xs)

  abbrev pub take : ℕ → List A → List A
  take zero xs = []
  take (suc n) [] = []
  take (suc n) (x ∷ xs) = x ∷ take n xs

  abbrev pub drop : ℕ → List A → List A
  drop zero xs = xs
  drop (suc n) [] = []
  drop (suc n) (x ∷ xs) = drop n xs

  abbrev pub replicate : ℕ → A → List A
  replicate zero a = []
  replicate (suc n) a = a ∷ replicate n a

  pub length-append : (xs ys : List A) → length (xs ++ ys) ≡ length xs + length ys
  length-append [] ys = omega arith
  length-append (x ∷ xs) ys = omega (arith, length-append xs ys)

module _ {ℓ} {A : Type ℓ} where
  pub take-append-drop : (n : ℕ) (xs : List A) → take n xs ++ drop n xs ≡ xs
  take-append-drop zero xs = refl
  take-append-drop (suc n) [] = refl
  take-append-drop (suc n) (x ∷ xs) = ap (◌∷◌ x) (take-append-drop n xs)

  pub length-take : (n : ℕ) (xs : List A) → length (take n xs) ≡ min n (length xs)
  length-take zero xs = omega arith
  length-take (suc n) [] = omega arith
  length-take (suc n) (x ∷ xs) = omega (arith, length-take n xs)

  pub length-drop : (n : ℕ) (xs : List A) → length (drop n xs) ≡ length xs - n
  length-drop zero xs = omega arith
  length-drop (suc n) [] = omega arith
  length-drop (suc n) (x ∷ xs) = omega (arith, length-drop n xs)

  pub take_all : (n : ℕ) (xs : List A) → length xs ≤ n → take n xs ≡ xs
  take_all zero [] h = refl
  take_all zero (x ∷ xs) h = absurd (omega arith)
  take_all (suc n) [] h = refl
  take_all (suc n) (x ∷ xs) h = ap (◌∷◌ x) (take_all n xs (omega arith))

  pub drop_all : (n : ℕ) (xs : List A) → length xs ≤ n → drop n xs ≡ []
  drop_all zero [] h = refl
  drop_all zero (x ∷ xs) h = absurd (omega arith)
  drop_all (suc n) [] h = refl
  drop_all (suc n) (x ∷ xs) h = drop_all n xs (omega arith)

  -- A prefix of known length is what `take` takes and `drop` drops.
  pub take-append : (xs ys : List A) → take (length xs) (xs ++ ys) ≡ xs
  take-append [] ys = refl
  take-append (x ∷ xs) ys = ap (◌∷◌ x) (take-append xs ys)

  pub drop-append : (xs ys : List A) → drop (length xs) (xs ++ ys) ≡ ys
  drop-append [] ys = refl
  drop-append (x ∷ xs) ys = drop-append xs ys

  take_nil : (n : ℕ) → take {A = A} n [] ≡ []
  take_nil zero = refl
  take_nil (suc n) = refl

  drop_nil : (n : ℕ) → drop {A = A} n [] ≡ []
  drop_nil zero = refl
  drop_nil (suc n) = refl

  pub take_add : (m n : ℕ) (xs : List A) → take (m + n) xs ≡ take m xs ++ take n (drop m xs)
  take_add zero n xs = rw zero-add
  take_add (suc m) n [] = rw suc-add (sym (take_nil n))
  take_add (suc m) n (x ∷ xs) = rw suc-add (ap (◌∷◌ x) (take_add m n xs))

  pub drop_add : (m n : ℕ) (xs : List A) → drop (m + n) xs ≡ drop n (drop m xs)
  drop_add zero n xs = rw zero-add
  drop_add (suc m) n [] = rw suc-add (sym (drop_nil n))
  drop_add (suc m) n (x ∷ xs) = rw suc-add (drop_add m n xs)

  -- Beyond a prefix `b`, `take` and `drop` go on in the rest.
  pub take_past :
      (n : ℕ) (b xs : List A) → length b ≤ n → take n (b ++ xs) ≡ b ++ take (n - length b) xs
  take_past n [] xs h = ap (λ k. take k xs) (omega arith)
  take_past zero (y ∷ b) xs h = absurd (omega arith)
  take_past (suc n) (y ∷ b) xs h =
      ap (◌∷◌ y) (take_past n b xs (omega arith) ∙ ap (λ k. b ++ take k xs) (omega arith))

  pub drop_past : (n : ℕ) (b xs : List A) → length b ≤ n → drop n (b ++ xs) ≡ drop (n - length b) xs
  drop_past n [] xs h = ap (λ k. drop k xs) (omega arith)
  drop_past zero (y ∷ b) xs h = absurd (omega arith)
  drop_past (suc n) (y ∷ b) xs h =
      drop_past n b xs (omega arith) ∙ ap (λ k. drop k xs) (omega arith)

  pub eq-nil_of_length : (xs : List A) → length xs ≡ 0 → xs ≡ []
  eq-nil_of_length [] h = refl
  eq-nil_of_length (x ∷ xs) h = absurd (omega arith)

  -- Within a prefix `a`, `take` and `drop` do not see what follows it.
  pub take_within : (n : ℕ) (a b : List A) → n ≤ length a → take n (a ++ b) ≡ take n a
  take_within zero a b h = refl
  take_within (suc n) [] b h = absurd (omega arith)
  take_within (suc n) (x ∷ a) b h = ap (◌∷◌ x) (take_within n a b (omega arith))

  pub drop_within : (n : ℕ) (a b : List A) → n ≤ length a → drop n (a ++ b) ≡ drop n a ++ b
  drop_within zero a b h = refl
  drop_within (suc n) [] b h = absurd (omega arith)
  drop_within (suc n) (x ∷ a) b h = drop_within n a b (omega arith)

  pub length-replicate : (n : ℕ) (a : A) → length (replicate n a) ≡ n
  length-replicate zero a = refl
  length-replicate (suc n) a = ap suc (length-replicate n a)

-- A list that begins like `x ++ y` and is as long as `x` is `x` and a beginning of `y`.
pub append_split :
    {A : Type 0} (a b x y : List A)
    → a ++ b ≡ x ++ y
    → length x ≤ length a
    → (a ≡ x ++ drop (length x) a) × (drop (length x) a ++ b ≡ y)
append_split a b x y h l = (
  sym (take-append-drop (length x) a)
      ∙ ap (λ m. m ++ drop (length x) a)
          (sym (take_within (length x) a b l) ∙ ap (take (length x)) h ∙ take-append x y),
  sym (drop_within (length x) a b l) ∙ ap (drop (length x)) h ∙ drop-append x y,
)
