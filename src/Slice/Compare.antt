-- ===== src/Slice/Compare.antt =====
-- What the slices' functions say of the strings the slices lead to.
use libserverkit.Base.{
  ℕ, zero, suc, ◌+◌, ◌-◌, ◌≤◌, Bool, true, ◌&&◌, some, List, [], ◌∷◌, ◌++◌, ◌≡◌, ◌↔◌, refl, sym,
  subst, ap, ap₂, ◌∙◌, Bytes, slice, slice_split, length-slice, length, take, leb, ==_self,
  eq_of_==, arith, take-append, length-append,
}
use libserverkit.Slice.{Slice, remove_prefix, to_string, is_memory_same, starts_with, is_equal}

both : {a b : Bool} → a ≡ true → b ≡ true → (a && b) ≡ true
both h k = rw h k

-- Two lists with the same end to end parts, of which the first are of one length.
prefix_eq : (xs ys us vs : List ℕ) → length xs ≡ length ys → xs ++ us ≡ ys ++ vs → xs ≡ ys
prefix_eq xs ys us vs e h =
    sym (take-append xs us)
    ∙ (ap (take (length xs)) h ∙ (ap (λ n. take n (ys ++ vs)) e ∙ take-append ys vs))

abbrev head : List ℕ → ℕ
head [] = 0
head (x ∷ xs) = x

abbrev tail : List ℕ → List ℕ
tail [] = []
tail (x ∷ xs) = xs

module _ (m : Bytes) where
  -- `memcmp` tells whether the bytes are the same.
  slice-is_memory_same : (a b n : ℕ) → is_memory_same m a b n ≡ true → slice m a n ≡ slice m b n
  unfolding is_memory_same slice
  slice-is_memory_same a b zero h = refl
  slice-is_memory_same a b (suc n) h =
      ap₂ ◌∷◌ (eq_of_== (m a) (m b) (ground arith))
        (slice-is_memory_same (suc a) (suc b) n (ground arith))

  is_memory_same-slice : (a b n : ℕ) → slice m a n ≡ slice m b n → is_memory_same m a b n ≡ true
  unfolding is_memory_same slice
  is_memory_same-slice a b zero h = refl
  is_memory_same-slice a b (suc n) h =
      rw (ap head h, ==_self (m b)) (is_memory_same-slice (suc a) (suc b) n (ap tail h))

  slice-is_memory_same_at :
      (a b n k : ℕ) → n ≡ k → is_memory_same m a b n ≡ true → slice m a k ≡ slice m b k
  slice-is_memory_same_at a b n k e h =
      subst (λ j. slice m a j ≡ slice m b j) e (slice-is_memory_same a b n h)

  size_of_slice : (a b n k : ℕ) → slice m a n ≡ slice m b k → n ≡ k
  size_of_slice a b n k h = sym (length-slice m a n) ∙ (ap length h ∙ length-slice m b k)

  -- `operator==` holds of two slices just when they lead to the same string.
  pub is_equal-to_string : (x y : Slice) → (is_equal m x y ≡ true) ↔ (to_string m x ≡ to_string m y)
  unfolding is_equal to_string
  is_equal-to_string x y = (
    λ h.
        ap (slice m x.data_) (eq_of_== x.size y.size (ground arith))
        ∙ slice-is_memory_same_at x.data_ y.data_ x.size y.size (ground arith) (ground arith),
    λ h.
        let e = size_of_slice x.data_ y.data_ x.size y.size h in
        both (rw e (==_self y.size))
          (is_memory_same-slice x.data_ y.data_ x.size (h ∙ ap (slice m y.data_) (sym e))),
  )

  -- `starts_with(x)` holds just when `remove_prefix(x.size())` passes its assertion and the string is
  -- that of `x` followed by that of the slice it leaves.
  pub starts_with-remove_prefix :
      (s x : Slice)
      → (starts_with m s x ≡ true) ↔ (
          (r : Slice) × (remove_prefix x.size s ≡ some r)
          × (to_string m s ≡ to_string m x ++ to_string m r))
  unfolding starts_with remove_prefix to_string
  starts_with-remove_prefix s x = (
    λ h.
        let r : Slice = record { data_ = s.data_ + x.size; size = s.size - x.size } in
        let fits : leb x.size s.size ≡ true = ground arith in
        (
          r,
          rw fits refl,
          slice_split m s.data_ s.size x.size (ground arith)
              ∙ ap (λ xs. xs ++ to_string m r)
                  (slice-is_memory_same s.data_ x.data_ x.size (ground arith)),
        ),
    λ h.
        let fits : x.size ≤ s.size = omega (
          arith,
          length-slice m s.data_ s.size,
          length-slice m x.data_ x.size,
          ap length h.2,
          length-append (slice m x.data_ x.size) (slice m h.0.data_ h.0.size),
        ) in
        let parts = sym (slice_split m s.data_ s.size x.size fits) ∙ h.2 in
        both (ground arith) (
          is_memory_same-slice s.data_ x.data_ x.size (
            prefix_eq (slice m s.data_ x.size) (slice m x.data_ x.size)
              (slice m (s.data_ + x.size) (s.size - x.size)) (slice m h.0.data_ h.0.size)
              (length-slice m s.data_ x.size ∙ sym (length-slice m x.data_ x.size)) parts)),
  )
