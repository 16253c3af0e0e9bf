-- ===== src/BufferList/Chain.antt =====
-- The chain of buffers from the read end to the write end, and the bytes that it holds.
use libserverkit.Base.{
  ℕ, ◌+◌, ◌-◌, ◌≤◌, ◌<◌, ◌≡◌, ◌≢◌, refl, ap, ap₂, ◌∙◌, true, List, [], ◌∷◌, ◌++◌, arith, update,
  update_self, update_ne, append_assoc, append-nil, has, IsNodup, slice, memcpy, slice-memcpy,
  length,
}
use libserverkit.Buffer.{Buffer, buffer_size}

abbrev pub Cells : Type 0
Cells = ℕ → Buffer

-- The bytes from offset `ri` of buffer `p`, through the buffers `ps`, to offset `wi` of the last.
abbrev pub view : Cells → ℕ → ℕ → ℕ → List ℕ → List ℕ
view c ri wi p [] = slice (c p).bytes ri (wi - ri)
view c ri wi p (q ∷ ps) = slice (c p).bytes ri (buffer_size - ri) ++ view c 0 wi q ps

-- Each buffer's `next_` leads to the one behind it.
abbrev pub Linked : Cells → ℕ → List ℕ → Type 0
Linked c p [] = Unit
Linked c p (q ∷ ps) = ((c p).next ≡ q) × Linked c q ps

abbrev pub last : ℕ → List ℕ → ℕ
last p [] = p
last p (q ∷ ps) = last q ps

-- In a single buffer the read offset does not pass the write offset.
abbrev pub Ordered : ℕ → ℕ → List ℕ → Type 0
Ordered ri wi [] = ri ≤ wi
Ordered ri wi (q ∷ ps) = ri ≤ buffer_size

pub Ordered-zero : (wi : ℕ) (ps : List ℕ) → Ordered 0 wi ps
Ordered-zero wi [] = omega arith
Ordered-zero wi (q ∷ ps) = omega arith

pub has-last : (p : ℕ) (ps : List ℕ) → has (last p ps) (p ∷ ps) ≡ true
has-last p [] = ground arith
has-last p (q ∷ ps) = ground (arith, has-last q ps)

pub last-ne : (p q : ℕ) (ps : List ℕ) → IsNodup (p ∷ q ∷ ps) → p ≢ last q ps
last-ne p q ps h e = ground (arith, has-last q ps)

pub last-append : (p : ℕ) (ps : List ℕ) (q : ℕ) → last p (ps ++ q ∷ []) ≡ q
last-append p [] q = refl
last-append p (r ∷ ps) q = last-append r ps q

-- Only the bytes of the chain's own buffers count.
pub view-cong :
    (c c' : Cells) (ri wi p : ℕ) (ps : List ℕ)
    → ((a : ℕ) → has a (p ∷ ps) ≡ true → (c' a).bytes ≡ (c a).bytes)
    → view c' ri wi p ps ≡ view c ri wi p ps
view-cong c c' ri wi p [] h = ap (λ m. slice m ri (wi - ri)) (h p (ground arith))
view-cong c c' ri wi p (q ∷ ps) h =
    ap₂ ◌++◌ (ap (λ m. slice m ri (buffer_size - ri)) (h p (ground arith)))
      (view-cong c c' 0 wi q ps (λ a i. h a (ground arith)))

pub Linked-cong :
    (c c' : Cells) (p : ℕ) (ps : List ℕ)
    → ((a : ℕ) → has a (p ∷ ps) ≡ true → (c' a).next ≡ (c a).next)
    → Linked c p ps
    → Linked c' p ps
Linked-cong c c' p [] h k = tt
Linked-cong c c' p (q ∷ ps) h k =
    (h p (ground arith) ∙ k.0, Linked-cong c c' q ps (λ a i. h a (ground arith)) k.1)

-- The state of the buffers after bytes were copied to the write point.
abbrev pub poked : Cells → ℕ → ℕ → List ℕ → Cells
poked c w wi src = update c w (record (c w) { bytes = memcpy (c w).bytes wi src })

-- A copy to the write point extends what the chain holds.
pub view-poked :
    (c : Cells) (ri wi p : ℕ) (ps src : List ℕ)
    → IsNodup (p ∷ ps)
    → Ordered ri wi ps
    → view (poked c (last p ps) wi src) ri (wi + length src) p ps ≡ view c ri wi p ps ++ src
view-poked c ri wi p [] src h o =
    rw (update_self c p _, ← slice-memcpy (c p).bytes wi ri (wi - ri) src (omega arith))
      (ap (slice (memcpy (c p).bytes wi src) ri) (omega arith))
view-poked c ri wi p (q ∷ ps) src h o = rw (append_assoc) (
    ap₂ ◌++◌
      (ap (λ b. slice (Buffer.bytes b) ri (buffer_size - ri))
        (update_ne c _ _ p (last-ne p q ps h)))
      (view-poked c 0 wi q ps src h.1 (Ordered-zero wi ps)))

-- A new last buffer, linked behind the full one, adds no bytes.
pub view-extend :
    (c : Cells) (ri p : ℕ) (ps : List ℕ) (q : ℕ)
    → view c ri 0 p (ps ++ q ∷ []) ≡ view c ri buffer_size p ps
unfolding slice
view-extend c ri p [] q = append-nil _
view-extend c ri p (r ∷ ps) q =
    ap (◌++◌ (slice (c p).bytes ri (buffer_size - ri))) (view-extend c 0 r ps q)

-- `buffer->next_ = next`
abbrev pub set_next : Cells → ℕ → ℕ → Cells
set_next c p next = update c p (record (c p) { next = next })

pub set_next-bytes : (c : Cells) (p q a : ℕ) → (set_next c p q a).bytes ≡ (c a).bytes
set_next-bytes c p q a = ground arith

pub Linked-extend :
    (c : Cells) (p : ℕ) (ps : List ℕ) (q : ℕ)
    → IsNodup (p ∷ ps)
    → Linked c p ps
    → Linked (set_next c (last p ps) q) p (ps ++ q ∷ [])
Linked-extend c p [] q h k = (ap Buffer.next (update_self c p _), tt)
Linked-extend c p (r ∷ ps) q h k = (
  ap Buffer.next (update_ne c (last r ps) _ p (last-ne p r ps h)) ∙ k.0,
  Linked-extend c r ps q h.1 k.1,
)

pub Ordered-append :
    (ri wi : ℕ) (ps : List ℕ) (q : ℕ) → ri < buffer_size → Ordered ri wi (ps ++ q ∷ [])
Ordered-append ri wi [] q h = omega arith
Ordered-append ri wi (r ∷ ps) q h = omega arith
