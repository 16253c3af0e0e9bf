-- ===== src/ObjectPool/Laws.antt =====
-- What the pool promises: an object that it hands out is not `NULL` and belongs to nobody else.
use libserverkit.Base.{
  ℕ, zero, suc, ◌≤◌, ◌<◌, ◌≡◌, ◌≢◌, refl, false, true, List, [], ◌∷◌, ◌++◌, append_assoc,
  append-nil, arith, update_ne, length, sym, ap, ◌∙◌, has, IsNodup, IsNodup-move, All, All-append,
  All-move, All-mono,
}
use libserverkit.ObjectPool.{
  ObjectPool, null, push_new, allocate_loop, allocate, pop_front, refill, get, free, new_pool,
  no_objects, alloc_object_number,
}
use mathlib.Core.Path.{subst}

-- An address that `new` has given out before `brk`.
abbrev pub Allocated : ℕ → ℕ → Type 0
Allocated brk a = (a ≢ null) × (a < brk)

-- The addresses in use and the free ones are different and all come from `new`.
pub record IsValid {ℓ} {T : Type ℓ} (s : ObjectPool T) (used : List ℕ) : Type 0 where
  pub nodup : IsNodup (used ++ s.free_list)
  pub allocated : All (Allocated s.brk) (used ++ s.free_list)
  pub positive : null < s.brk

has-Allocated : (a brk : ℕ) (xs : List ℕ) → All (Allocated brk) xs → brk ≤ a → has a xs ≡ false
has-Allocated a brk [] h k = refl
has-Allocated a brk (x ∷ xs) h k = ground (arith, has-Allocated a brk xs h.1)

pub Allocated-has :
    (a brk : ℕ) (xs : List ℕ) → All (Allocated brk) xs → has a xs ≡ true → Allocated brk a
Allocated-has a brk [] h i = cc
Allocated-has a brk (x ∷ xs) h i = ground (arith, Allocated-has a brk xs h.1)

Allocated-suc : (brk : ℕ) (xs : List ℕ) → All (Allocated brk) xs → All (Allocated (suc brk)) xs
Allocated-suc brk xs = All-mono (Allocated brk) (Allocated (suc brk)) xs (λ a h. (h.0, omega arith))

module _ {ℓ} {T : Type ℓ} where
  push_new-IsValid :
      (fresh : T) (s : ObjectPool T) (used : List ℕ)
      → IsValid s used
      → IsValid (push_new fresh s) used
  push_new-IsValid fresh s used v = record {
    nodup = rw (← append_assoc) (
        IsNodup-move [] s.brk (used ++ s.free_list)
          (has-Allocated s.brk s.brk _ v.allocated (omega arith), v.nodup));
    allocated = rw (← append_assoc) (
        All-append _ (used ++ s.free_list) (s.brk ∷ []) (Allocated-suc s.brk _ v.allocated)
          ((omega (arith, v.positive), omega arith), tt));
    positive = omega (arith, v.positive);
  }

  allocate_loop-IsValid :
      (n : ℕ) (fresh : T) (s : ObjectPool T) (used : List ℕ)
      → IsValid s used
      → IsValid (allocate_loop n fresh s) used
  unfolding allocate_loop
  allocate_loop-IsValid zero fresh s used v = v
  allocate_loop-IsValid (suc n) fresh s used v =
      allocate_loop-IsValid n fresh (push_new fresh s) used (push_new-IsValid fresh s used v)

  -- `allocate` changes no object that exists, and adds what it makes to the end of the list.
  allocate_loop-cell :
      (n : ℕ) (fresh : T) (s : ObjectPool T) (a : ℕ)
      → a < s.brk
      → (allocate_loop n fresh s).cell a ≡ s.cell a
  unfolding allocate_loop
  allocate_loop-cell zero fresh s a h = refl
  allocate_loop-cell (suc n) fresh s a h =
      allocate_loop-cell n fresh (push_new fresh s) a (omega arith)
      ∙ update_ne s.cell s.brk fresh a (omega arith)

  allocate_loop-free :
      (n : ℕ) (fresh : T) (s : ObjectPool T)
      → (ps : List ℕ) × ((allocate_loop n fresh s).free_list ≡ s.free_list ++ ps) × (length ps ≡ n)
  unfolding allocate_loop
  allocate_loop-free zero fresh s = ([], sym (append-nil _), refl)
  allocate_loop-free (suc n) fresh s =
      let (ps, e, l) = allocate_loop-free n fresh (push_new fresh s) in
      (s.brk ∷ ps, e ∙ append_assoc s.free_list (s.brk ∷ []) ps, ap suc l)

  -- After the test for an empty list there is a first entry, and nothing else has changed.
  pub record Refilled (s s' : ObjectPool T) (used : List ℕ) : Type ℓ where
    pub first : ℕ
    pub rest : List ℕ
    pub nonempty : s'.free_list ≡ first ∷ rest
    pub valid : IsValid s' used
    pub kept : (a : ℕ) → a < s.brk → s'.cell a ≡ s.cell a

  refill-Refilled :
      (fresh : T) (s : ObjectPool T) (used fl : List ℕ)
      → s.free_list ≡ fl
      → IsValid s used
      → Refilled s (refill fl fresh s) used
  unfolding allocate
  refill-Refilled fresh s used [] e v = go (allocate_loop-free alloc_object_number fresh s)
    where
      go :
          (ps : List ℕ) × ((allocate fresh s).free_list ≡ s.free_list ++ ps)
            × (length ps ≡ alloc_object_number)
          → Refilled s (allocate fresh s) used
      go ([], p, l) = absurd (omega arith)
      go (q ∷ qs, p, l) = record {
        first = q;
        rest = qs;
        nonempty = p ∙ ap (λ fs. fs ++ q ∷ qs) e;
        valid = allocate_loop-IsValid alloc_object_number fresh s used v;
        kept = allocate_loop-cell alloc_object_number fresh s;
      }
  refill-Refilled fresh s used (q ∷ qs) e v = record {
    first = q;
    rest = qs;
    nonempty = e;
    valid = v;
    kept = λ a h. refl;
  }

  -- What `get` promises of its result `p` and the pool `t` that is left.
  pub record Got (s : ObjectPool T) (used : List ℕ) (p : ℕ) (t : ObjectPool T) : Type ℓ where
    pub valid : IsValid t (used ++ p ∷ [])
    pub kept : (a : ℕ) → a < s.brk → t.cell a ≡ s.cell a

  pop-Got :
      (s s' : ObjectPool T) (used fl : List ℕ)
      → s'.free_list ≡ fl
      → (r : Refilled s s' used) → Got s used (pop_front fl s').0 (pop_front fl s').1
  pop-Got s s' used [] e r = absurd (ground (arith, r.nonempty))
  pop-Got s s' used (p ∷ ps) e r = record {
    valid = record {
      nodup = rw append_assoc (subst (λ fs. IsNodup (used ++ fs)) e r.valid.nodup);
      allocated =
          rw append_assoc (subst (λ fs. All (Allocated s'.brk) (used ++ fs)) e r.valid.allocated);
      positive = r.valid.positive;
    };
    kept = r.kept;
  }

  -- `Get` hands out an object that is not `NULL` and that nobody uses, and changes no object that
  -- existed.
  pub get-Got :
      (fresh : T) (s : ObjectPool T) (used : List ℕ)
      → IsValid s used
      → Got s used (get fresh s).0 (get fresh s).1
  unfolding get
  get-Got fresh s used v = pop-Got s _ used _ refl (refill-Refilled fresh s used s.free_list refl v)

  -- `Free` takes an object back, wherever it stands among those in use.
  pub free-IsValid :
      (reset : T → T) (p : ℕ) (s : ObjectPool T) (before after : List ℕ)
      → IsValid s (before ++ p ∷ after)
      → IsValid (free reset p s) (before ++ after)
  unfolding free
  free-IsValid reset p s before after v = record {
    nodup = rw append_assoc (
        subst IsNodup (ap (◌++◌ before) (append_assoc after s.free_list (p ∷ [])))
          (IsNodup-move before p (after ++ s.free_list) (rw append_assoc at v.nodup)));
    allocated = rw append_assoc (
        subst (All (Allocated s.brk)) (ap (◌++◌ before) (append_assoc after s.free_list (p ∷ [])))
          (All-move _ before p (after ++ s.free_list) (rw append_assoc at v.allocated)));
    positive = v.positive;
  }

  -- An object from the free list is handed out as it is.
  pub get_recycled :
      (fresh : T) (s : ObjectPool T) (p : ℕ) (rest : List ℕ)
      → s.free_list ≡ p ∷ rest
      → get fresh s ≡ (p, record s { free_list = rest })
  unfolding get
  get_recycled fresh s p rest e =
      ap (λ fl. let s' = refill fl fresh s in pop_front s'.free_list s') e
      ∙ ap (λ fl. pop_front fl s) e

  -- The first pool holds free objects only.
  pub new_pool-IsValid : (fresh : T) → IsValid (new_pool fresh) []
  unfolding new_pool
  new_pool-IsValid fresh =
      allocate_loop-IsValid alloc_object_number fresh (no_objects fresh) [] empty-IsValid
    where
      empty-IsValid : IsValid (no_objects fresh) []
      empty-IsValid = record { nodup = tt; allocated = tt; positive = omega arith }
