-- ===== src/Base/Memory.antt =====
-- Bytes at offsets, and the copies between them and a caller's array, which is a list.
use Prim.Native.Nat.{ℕ, zero, suc, ◌+◌, ◌-◌, ◌≤◌}
use mathlib.Core.Path.{◌≡◌, refl, ap, ap₂, ◌∙◌}
use mathlib.Core.List.{List, [], ◌∷◌, ◌++◌}
use native.Mathlib.Nat.{zero-add, suc-add, add-suc, add-zero}
use native.Mathlib.Omega.{arith}
use libserverkit.Base.Tests.{ltb, if◌then◌else◌, update}
use libserverkit.Base.Lists.{length}

abbrev pub Bytes : Type 0
Bytes = ℕ → ℕ

-- The `n` bytes from offset `off` on.
unfoldable pub slice : Bytes → ℕ → ℕ → List ℕ
slice m off zero = []
slice m off (suc n) = m off ∷ slice m (suc off) n

-- memcpy to offset `off`.
unfoldable pub memcpy : Bytes → ℕ → List ℕ → Bytes
memcpy m off [] = m
memcpy m off (x ∷ xs) = memcpy (update m off x) (suc off) xs

-- memset of the first `n` bytes.
abbrev pub memset : Bytes → ℕ → ℕ → Bytes
memset m v n i = if ltb i n then v else m i

pub length-slice : (m : Bytes) (off n : ℕ) → length (slice m off n) ≡ n
unfolding slice
length-slice m off zero = refl
length-slice m off (suc n) = ap suc (length-slice m (suc off) n)

pub slice_add :
    (m : Bytes) (off a b : ℕ) → slice m off (a + b) ≡ slice m off a ++ slice m (off + a) b
unfolding slice
slice_add m off zero b = rw (zero-add, add-zero)
slice_add m off (suc a) b =
    rw (suc-add, add-suc, ← suc-add) (ap (◌∷◌ (m off)) (slice_add m (suc off) a b))

-- A slice is the first `n` of its bytes and the rest.
pub slice_split :
    (m : Bytes) (off a n : ℕ) → n ≤ a → slice m off a ≡ slice m off n ++ slice m (off + n) (a - n)
slice_split m off a n h = ap (slice m off) (omega arith) ∙ slice_add m off n (a - n)

memcpy_before : (m : Bytes) (off : ℕ) (xs : List ℕ) (i : ℕ) → suc i ≤ off → memcpy m off xs i ≡ m i
unfolding memcpy
memcpy_before m off [] i h = refl
memcpy_before m off (x ∷ xs) i h = ground (arith, memcpy_before (update m off x) (suc off) xs i)

-- Bytes below the copy are kept.
pub slice-memcpy_before :
    (m : Bytes) (off : ℕ) (xs : List ℕ) (start n : ℕ)
    → start + n ≤ off
    → slice (memcpy m off xs) start n ≡ slice m start n
unfolding slice
slice-memcpy_before m off xs start zero h = refl
slice-memcpy_before m off xs start (suc n) h =
    ap₂ ◌∷◌ (memcpy_before m off xs start (omega arith))
      (slice-memcpy_before m off xs (suc start) n (omega arith))

-- What was copied is read back.
pub slice-memcpy_self :
    (m : Bytes) (off : ℕ) (xs : List ℕ) → slice (memcpy m off xs) off (length xs) ≡ xs
unfolding slice memcpy
slice-memcpy_self m off [] = refl
slice-memcpy_self m off (x ∷ xs) =
    ap₂ ◌∷◌ (memcpy_before (update m off x) (suc off) xs off (omega arith) ∙ ground arith)
      (slice-memcpy_self (update m off x) (suc off) xs)

-- A copy just behind a slice extends it.
pub slice-memcpy :
    (m : Bytes) (off start n : ℕ) (xs : List ℕ)
    → start + n ≡ off
    → slice (memcpy m off xs) start (n + length xs) ≡ slice m start n ++ xs
slice-memcpy m off start n xs e = rw (
  slice_add (memcpy m off xs) start n (length xs),
  slice-memcpy_before m off xs start n (omega arith),
  e,
  slice-memcpy_self m off xs,
)
