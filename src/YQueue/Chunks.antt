-- ===== src/YQueue/Chunks.antt =====
-- The chain of chunks from the first to the last one, and the values that it holds.
use libserverkit.Base.{
  ℕ, suc, inl, inr, Bool-cases, ◌==◌, eq_of_==, ◌+◌, ◌-◌, ◌≤◌, ◌≡◌, ◌≢◌, refl, ap, ap₂, ◌∙◌, sym,
  true, List, [], ◌∷◌, ◌++◌, arith, update, update_self, update_ne, append_assoc, append-nil, has,
  IsNodup, slice, slice_add, memcpy, slice-memcpy_before,
}
use libserverkit.BufferList.Chain.{last, last-ne}
use libserverkit.YQueue.{Chunk, change}

abbrev pub Chunks : Type 0
Chunks = ℕ → Chunk

-- A change of a link leaves the values, and one of the values or of `prev` leaves `next`.
pub change-values :
    (c : Chunks) (p : ℕ) (f : Chunk → Chunk) (a : ℕ)
    → ((k : Chunk) → (f k).values ≡ k.values)
    → (change c p f a).values ≡ (c a).values
change-values c p f a h = elim (Bool-cases (a == p)) [
  | inl e ↦ rw e (h (c p) ∙ ap (λ b. (c b).values) (sym (eq_of_== a p e)))
  | inr e ↦ rw e refl
]

pub change-next :
    (c : Chunks) (p : ℕ) (f : Chunk → Chunk) (a : ℕ)
    → ((k : Chunk) → (f k).next ≡ k.next)
    → (change c p f a).next ≡ (c a).next
change-next c p f a h = elim (Bool-cases (a == p)) [
  | inl e ↦ rw e (h (c p) ∙ ap (λ b. (c b).next) (sym (eq_of_== a p e)))
  | inr e ↦ rw e refl
]

-- Each chunk's `next` leads to the one behind it.
abbrev pub IsChain : Chunks → ℕ → List ℕ → Type 0
IsChain c p [] = Unit
IsChain c p (q ∷ ps) = ((c p).next ≡ q) × IsChain c q ps

-- In a single chunk the first position does not pass the last one.
abbrev pub InOrder : ℕ → ℕ → List ℕ → Type 0
InOrder bp ep [] = bp ≤ ep
InOrder bp ep (q ∷ ps) = Unit

pub IsChain-append :
    (c : Chunks) (p : ℕ) (ps : List ℕ) (q : ℕ)
    → IsChain c p ps
    → (c (last p ps)).next ≡ q
    → IsChain c p (ps ++ q ∷ [])
IsChain-append c p [] q h e = (e, tt)
IsChain-append c p (r ∷ ps) q h e = (h.0, IsChain-append c r ps q h.1 e)

-- The last chunk's `next` does not count.
pub IsChain-cong :
    (c c' : Chunks) (p : ℕ) (ps : List ℕ)
    → IsNodup (p ∷ ps)
    → ((a : ℕ) → a ≢ last p ps → has a (p ∷ ps) ≡ true → (c' a).next ≡ (c a).next)
    → IsChain c p ps
    → IsChain c' p ps
IsChain-cong c c' p [] d h k = tt
IsChain-cong c c' p (q ∷ ps) d h k = (
  h p (last-ne p q ps d) (ground arith) ∙ k.0,
  IsChain-cong c c' q ps d.1 (λ a e i. h a e (ground arith)) k.1,
)

module _ (n : ℕ) where
  -- The values from position `bp` of chunk `p`, through the chunks `ps`, to before position `ep` of the
  -- last.
  abbrev pub held : Chunks → ℕ → ℕ → ℕ → List ℕ → List ℕ
  held c bp ep p [] = slice (c p).values bp (ep - bp)
  held c bp ep p (q ∷ ps) = slice (c p).values bp (n - bp) ++ held c 0 ep q ps

  pub held-cong :
      (c c' : Chunks) (bp ep p : ℕ) (ps : List ℕ)
      → ((a : ℕ) → has a (p ∷ ps) ≡ true → (c' a).values ≡ (c a).values)
      → held c' bp ep p ps ≡ held c bp ep p ps
  held-cong c c' bp ep p [] h = ap (λ m. slice m bp (ep - bp)) (h p (ground arith))
  held-cong c c' bp ep p (q ∷ ps) h =
      ap₂ ◌++◌ (ap (λ m. slice m bp (n - bp)) (h p (ground arith)))
        (held-cong c c' 0 ep q ps (λ a i. h a (ground arith)))

  -- One position more.
  pub held_grow :
      (c : Chunks) (bp ep p : ℕ) (ps : List ℕ)
      → InOrder bp ep ps
      → held c bp (suc ep) p ps ≡ held c bp ep p ps ++ (c (last p ps)).values ep ∷ []
  unfolding slice
  held_grow c bp ep p [] h =
      let m = (c p).values in
      let one : suc ep - bp ≡ (ep - bp) + 1 = omega arith in
      let at : bp + (ep - bp) ≡ ep = omega arith in
      ap (slice m bp) one
      ∙ slice_add m bp (ep - bp) 1
      ∙ ap (λ k. slice m bp (ep - bp) ++ m k ∷ []) at
  held_grow c bp ep p (q ∷ []) h =
      ap (λ xs. slice (c p).values bp (n - bp) ++ xs) (held_grow c 0 ep q [] (omega arith))
      ∙ sym (append_assoc (slice (c p).values bp (n - bp)) _ _)
  held_grow c bp ep p (q ∷ r ∷ ps) h =
      ap (λ xs. slice (c p).values bp (n - bp) ++ xs) (held_grow c 0 ep q (r ∷ ps) tt)
      ∙ sym (append_assoc (slice (c p).values bp (n - bp)) _ _)

  -- A chunk more, with nothing in it.
  pub held_chunk :
      (c : Chunks) (bp p : ℕ) (ps : List ℕ) (q : ℕ)
      → held c bp 0 p (ps ++ q ∷ []) ≡ held c bp n p ps
  unfolding slice
  held_chunk c bp p [] q =
      ap (λ k. slice (c p).values bp (n - bp) ++ slice (c q).values 0 k) zero_less ∙ append-nil _
    where
      zero_less : 0 - 0 ≡ 0
      zero_less = omega arith
  held_chunk c bp p (r ∷ ps) q =
      ap (λ xs. slice (c p).values bp (n - bp) ++ xs) (held_chunk c 0 r ps q)

  -- A value at the end position, behind those that are held.
  abbrev pub stored : Chunks → ℕ → ℕ → ℕ → Chunks
  stored c e ep x = change c e (λ (k : Chunk). record k { values = update k.values ep x })

  pub held_stored :
      (c : Chunks) (bp ep p : ℕ) (ps : List ℕ) (x : ℕ)
      → IsNodup (p ∷ ps)
      → InOrder bp ep ps
      → held (stored c (last p ps) ep x) bp ep p ps ≡ held c bp ep p ps
  unfolding memcpy
  held_stored c bp ep p [] x d h =
      ap (λ (k : Chunk). slice k.values bp (ep - bp)) (update_self c p _)
      ∙ slice-memcpy_before (c p).values ep (x ∷ []) bp (ep - bp) (omega arith)
  held_stored c bp ep p (q ∷ []) x d h =
      ap₂ ◌++◌
        (ap (λ (k : Chunk). slice k.values bp (n - bp)) (update_ne c q _ p (last-ne p q [] d)))
        (held_stored c 0 ep q [] x d.1 (omega arith))
  held_stored c bp ep p (q ∷ r ∷ ps) x d h =
      ap₂ ◌++◌
        (ap (λ (k : Chunk). slice k.values bp (n - bp))
          (update_ne c (last q (r ∷ ps)) _ p (last-ne p q (r ∷ ps) d)))
        (held_stored c 0 ep q (r ∷ ps) x d.1 tt)
