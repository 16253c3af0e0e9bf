-- ===== src/Base/Distinct.antt =====
-- Lists of addresses without repetition, by a Boolean membership test.
use Prim.Native.Nat.{ℕ, ◌<◌}
use mathlib.Core.Path.{◌≡◌, refl, sym, subst}
use mathlib.Core.Logic.{◌≢◌, inl, inr}
use mathlib.Core.Bool.{Bool, true, false, ◌||◌}
use mathlib.Core.List.{List, [], ◌∷◌, ◌++◌}
use native.Mathlib.Omega.{arith}
use libserverkit.Base.Tests.{◌==◌, Bool-cases, eq_of_==, ==_ne}

abbrev pub has : ℕ → List ℕ → Bool
has a [] = false
has a (x ∷ xs) = (a == x) || has a xs

pub has-append : (a : ℕ) (xs ys : List ℕ) → has a (xs ++ ys) ≡ (has a xs || has a ys)
has-append a [] ys = refl
has-append a (x ∷ xs) ys = ground (arith, has-append a xs ys)

abbrev pub IsNodup : List ℕ → Type 0
IsNodup [] = Unit
IsNodup (x ∷ xs) = (has x xs ≡ false) × IsNodup xs

-- A test that holds of every entry.
abbrev pub All {ℓ} : {A : Type ℓ} → (A → Type 0) → List A → Type 0
All P [] = Unit
All P (x ∷ xs) = P x × All P xs

pub All-append :
    {A : Type 0} → (P : A → Type 0) (xs ys : List A) → All P xs → All P ys → All P (xs ++ ys)
All-append P [] ys h k = k
All-append P (x ∷ xs) ys h k = (h.0, All-append P xs ys h.1 k)

pub All-left : (P : ℕ → Type 0) (xs ys : List ℕ) → All P (xs ++ ys) → All P xs
All-left P [] ys h = tt
All-left P (x ∷ xs) ys h = (h.0, All-left P xs ys h.1)

pub All-right : (P : ℕ → Type 0) (xs ys : List ℕ) → All P (xs ++ ys) → All P ys
All-right P [] ys h = h
All-right P (x ∷ xs) ys h = All-right P xs ys h.1

pub All-mono : (P Q : ℕ → Type 0) (xs : List ℕ) → ((a : ℕ) → P a → Q a) → All P xs → All Q xs
All-mono P Q [] f h = tt
All-mono P Q (x ∷ xs) f h = (f x h.0, All-mono P Q xs f h.1)

-- The entry `x` moves from the middle to the end.
pub IsNodup-move :
    (xs : List ℕ) (x : ℕ) (ys : List ℕ) → IsNodup (xs ++ x ∷ ys) → IsNodup (xs ++ (ys ++ x ∷ []))
IsNodup-move [] x [] h = h
IsNodup-move [] x (y ∷ ys) h =
    (ground (arith, has-append y ys (x ∷ [])), IsNodup-move [] x ys (ground arith))
IsNodup-move (z ∷ xs) x ys h = (
  ground
      (arith, has-append z xs (x ∷ ys), has-append z xs (ys ++ x ∷ []), has-append z ys (x ∷ [])),
  IsNodup-move xs x ys h.1,
)

pub All-move :
    (P : ℕ → Type 0) (xs : List ℕ) (x : ℕ) (ys : List ℕ)
    → All P (xs ++ x ∷ ys)
    → All P (xs ++ (ys ++ x ∷ []))
All-move P [] x ys h = All-append P ys (x ∷ []) h.1 (h.0, tt)
All-move P (z ∷ xs) x ys h = (h.0, All-move P xs x ys h.1)

pub IsNodup-insert :
    (x : ℕ) (us vs : List ℕ)
    → has x (us ++ vs) ≡ false
    → IsNodup (us ++ vs)
    → IsNodup (us ++ x ∷ vs)
IsNodup-insert x [] vs e h = (e, h)
IsNodup-insert x (u ∷ us) vs e h = (
  ground (arith, has-append u us vs, has-append u us (x ∷ vs)),
  IsNodup-insert x us vs (ground arith) h.1,
)

-- Two neighbouring parts change places.
pub IsNodup-swap : (xs ys zs : List ℕ) → IsNodup (xs ++ (ys ++ zs)) → IsNodup (ys ++ (xs ++ zs))
IsNodup-swap [] ys zs h = h
IsNodup-swap (x ∷ xs) ys zs h =
    IsNodup-insert x ys (xs ++ zs)
      (ground (
        arith,
        has-append x xs (ys ++ zs),
        has-append x ys zs,
        has-append x ys (xs ++ zs),
        has-append x xs zs,
      ))
      (IsNodup-swap xs ys zs h.1)

-- Two entries in different parts differ.
pub has_apart : (a : ℕ) (xs ys : List ℕ) → IsNodup (xs ++ ys) → has a xs ≡ true → has a ys ≡ false
has_apart a [] ys h e = ground arith
has_apart a (x ∷ xs) ys h e = ground (arith, has-append x xs ys, has_apart a xs ys h.1)

pub ne_of_has : (a p : ℕ) (xs : List ℕ) → has a xs ≡ true → has p xs ≡ false → a ≢ p
ne_of_has a p xs h k e = ground arith

pub IsNodup-right : (xs ys : List ℕ) → IsNodup (xs ++ ys) → IsNodup ys
IsNodup-right [] ys h = h
IsNodup-right (x ∷ xs) ys h = IsNodup-right xs ys h.1

pub IsNodup-left : (xs ys : List ℕ) → IsNodup (xs ++ ys) → IsNodup xs
IsNodup-left [] ys h = tt
IsNodup-left (x ∷ xs) ys h = (ground (arith, has-append x xs ys), IsNodup-left xs ys h.1)

pub All-has : (P : ℕ → Type 0) (a : ℕ) (xs : List ℕ) → All P xs → has a xs ≡ true → P a
All-has P a [] h i = cc
All-has P a (x ∷ xs) h i = elim (Bool-cases (a == x)) [
  | inl e ↦ subst P (sym (eq_of_== a x e)) h.0
  | inr e ↦ All-has P a xs h.1 (ground arith)
]

-- A number above all entries.
pub has_above : (xs : List ℕ) (b : ℕ) → All (λ a. a < b) xs → has b xs ≡ false
has_above [] b h = refl
has_above (x ∷ xs) b h = rw (==_ne b x (omega (arith, h.0)), has_above xs b h.1) refl
