-- ===== src/YQueue/Memory.antt =====
-- Where the chunks are: in the chain, at the spare pointer, or given back.
use libserverkit.Base.{
  ℕ, suc, ◌+◌, ◌≤◌, ◌<◌, ◌≡◌, ap, sym, subst, true, false, inl, inr, List, [], ◌∷◌, ◌++◌, arith,
  has, has_above, has-append, IsNodup, IsNodup-insert, All, All-mono, length, length-append,
  append_assoc, Bool-cases, ◌==◌, if◌then◌else◌,
}
use libserverkit.YQueue.{give_back}

-- `brk` is the first address that was never used.
pub record Accounts (chain : List ℕ) (spare brk : ℕ) (freed : List ℕ) : Type 0 where
  -- No chunk of the chain is given back, and none is given back twice.
  pub once : IsNodup (chain ++ freed)
  pub no_null : has 0 freed ≡ false
  pub made : All (λ a. a < brk) freed
  pub apart : has spare freed ≡ false
  -- No chunk is lost.
  pub known : (a : ℕ) → 0 < a → a < brk → has a (spare ∷ (chain ++ freed)) ≡ true
  pub room : length chain + 1 + (if spare == 0 then 0 else 1) ≤ brk

has-snoc :
    (a sc : ℕ) (chain freed : List ℕ)
    → has a ((chain ++ sc ∷ []) ++ freed) ≡ has a (chain ++ sc ∷ freed)
has-snoc a sc chain freed = ap (has a) (append_assoc chain (sc ∷ []) freed)

module _ (chain : List ℕ) (spare brk : ℕ) (freed : List ℕ)
    (k : Accounts chain spare brk freed) where
  snoc-IsNodup :
      (sc : ℕ) → has sc chain ≡ false → has sc freed ≡ false → IsNodup ((chain ++ sc ∷ []) ++ freed)
  snoc-IsNodup sc h i =
      subst IsNodup (sym (append_assoc chain (sc ∷ []) freed))
        (IsNodup-insert sc chain freed (ground (arith, has-append sc chain freed)) k.once)

  -- A new chunk at the chain's end.
  pub Accounts-new :
      All (λ a. a < brk) chain
      → (spare == 0) ≡ true
      → Accounts (chain ++ brk ∷ []) spare (suc brk) freed
  Accounts-new made none_spare = record {
    once = snoc-IsNodup brk (has_above chain brk made) (has_above freed brk k.made);
    no_null = k.no_null;
    made = All-mono (λ a. a < brk) (λ a. a < suc brk) freed (λ a h. omega arith) k.made;
    apart = k.apart;
    known = λ a h i. elim (Bool-cases (a == brk)) [
      | inl e ↦ ground (arith, has-snoc a brk chain freed, has-append a chain (brk ∷ freed))
      | inr e ↦ ground (
        arith,
        k.known a h (ground arith),
        has-snoc a brk chain freed,
        has-append a chain (brk ∷ freed),
        has-append a chain freed,
      )
    ];
    room = ground (arith, k.room, length-append chain (brk ∷ []));
  }

  -- The spare chunk at the chain's end.
  pub Accounts-spare :
      has spare chain ≡ false → (spare == 0) ≡ false → Accounts (chain ++ spare ∷ []) 0 brk freed
  Accounts-spare fresh some_spare = record {
    once = snoc-IsNodup spare fresh k.apart;
    no_null = k.no_null;
    made = k.made;
    apart = k.no_null;
    known = λ a h i. ground (
      arith,
      k.known a h i,
      has-snoc a spare chain freed,
      has-append a chain (spare ∷ freed),
      has-append a chain freed,
    );
    room = ground (arith, k.room, length-append chain (spare ∷ []));
  }

-- The chunk `p` leaves the chain and becomes the spare chunk; the one before is given back.
pub Accounts-pop :
    (p : ℕ) (chain : List ℕ) (spare brk : ℕ) (freed : List ℕ)
    → Accounts (p ∷ chain) spare brk freed
    → has spare (p ∷ chain) ≡ false
    → has 0 (p ∷ chain) ≡ false
    → spare < brk
    → Accounts chain p brk (give_back spare freed)
Accounts-pop p chain spare brk freed k apart no_null made = elim (Bool-cases (spare == 0)) [
  | inl e ↦ rw e (record {
    once = k.once.1;
    no_null = k.no_null;
    made = k.made;
    apart = ground (arith, k.once.0, has-append p chain freed);
    known = λ a h i. ground (arith, k.known a h i, has-append a chain freed);
    room = ground (arith, k.room);
  })
  | inr e ↦ rw e (record {
    once =
        IsNodup-insert spare chain freed (ground (arith, k.apart, has-append spare chain freed))
          k.once.1;
    no_null = ground (arith, k.no_null);
    made = (made, k.made);
    apart = ground (arith, k.once.0, has-append p chain freed);
    known = λ a h i.
        ground (arith, k.known a h i, has-append a chain freed, has-append a chain (spare ∷ freed));
    room = ground (arith, k.room);
  })
]

-- The chain's last chunk is given back.
pub Accounts-undo :
    (chain : List ℕ) (sc spare brk : ℕ) (freed : List ℕ)
    → Accounts (chain ++ sc ∷ []) spare brk freed
    → (sc == 0) ≡ false
    → sc < brk
    → (spare == sc) ≡ false
    → Accounts chain spare brk (give_back sc freed)
Accounts-undo chain sc spare brk freed k some_chunk made other = rw some_chunk (record {
  once = subst IsNodup (append_assoc chain (sc ∷ []) freed) k.once;
  no_null = ground (arith, k.no_null);
  made = (made, k.made);
  apart = ground (arith, k.apart);
  known = λ a h i. ground (arith, k.known a h i, has-snoc a sc chain freed);
  room = ground (arith, k.room, length-append chain (sc ∷ []));
})
