-- ===== src/Slice.antt =====
-- base/slice.h: a view of bytes in memory, by an address and a size. What the slice leads to is the
-- memory's, and every function that reads it takes the memory.
pub mod Compare
use libserverkit.Base.{
  ℕ, zero, suc, ◌+◌, ◌-◌, Bool, true, false, not, ◌&&◌, Option, none, some, List, Bytes, slice, ltb,
  leb, ◌==◌, if◌then◌else◌,
}

pub record Slice : Type 0 where
  pub data_ : ℕ
  pub size : ℕ

-- `Slice()`, with the address of the empty string literal; `Slice(d, n)`, and `Slice(s)` of a string
-- with its address and its size
unfoldable pub empty_slice : ℕ → Slice
empty_slice literal = record { data_ = literal; size = 0 }

unfoldable pub new_slice : ℕ → ℕ → Slice
new_slice d n = record { data_ = d; size = n }

abbrev pub is_empty : Slice → Bool
is_empty s = s.size == 0

-- `operator[]`; `none` is a failed assertion.
unfoldable pub char_at : Bytes → Slice → ℕ → Option ℕ
char_at m s n = if ltb n s.size then some (m (s.data_ + n)) else none

-- `clear`
unfoldable pub clear : ℕ → Slice → Slice
clear literal s = record { data_ = literal; size = 0 }

-- `remove_prefix`
unfoldable pub remove_prefix : ℕ → Slice → Option Slice
remove_prefix n s =
    if leb n s.size then some (record { data_ = s.data_ + n; size = s.size - n }) else none

-- `ToString`
unfoldable pub to_string : Bytes → Slice → List ℕ
to_string m s = slice m s.data_ s.size

-- `memcmp(a, b, n) == 0`
unfoldable pub is_memory_same : Bytes → ℕ → ℕ → ℕ → Bool
is_memory_same m a b zero = true
is_memory_same m a b (suc n) = (m a == m b) && is_memory_same m (suc a) (suc b) n

-- `starts_with`
unfoldable pub starts_with : Bytes → Slice → Slice → Bool
unfolding is_memory_same
starts_with m s x = leb x.size s.size && is_memory_same m s.data_ x.data_ x.size

-- `operator==` and `operator!=`
unfoldable pub is_equal : Bytes → Slice → Slice → Bool
unfolding is_memory_same
is_equal m x y = (x.size == y.size) && is_memory_same m x.data_ y.data_ x.size

unfoldable pub is_unequal : Bytes → Slice → Slice → Bool
unfolding is_equal
is_unequal m x y = not (is_equal m x y)

-- `compare`, whose body is compiled out
unfoldable pub compare_slices : Bytes → Slice → Slice → ℕ
compare_slices m s b = 0
