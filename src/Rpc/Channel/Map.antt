-- ===== src/Rpc/Channel/Map.antt =====
-- Laws of the map from call identifiers to contexts.
use libserverkit.Base.{
  ℕ, ◌≡◌, ◌≢◌, refl, true, false, some, List, [], ◌∷◌, ◌++◌, ◌==◌, if◌then◌else◌, has, IsNodup,
  arith,
}
use libserverkit.Rpc.Channel.{RequestContext, ContextMap, find, erase, assign}

abbrev pub keys : ContextMap → List ℕ
keys [] = []
keys ((k, c) ∷ m) = k ∷ keys m

pub find-assign :
    (k j : ℕ) (c : RequestContext) (m : ContextMap)
    → find j (assign k c m) ≡ (if j == k then some c else find j m)
unfolding find assign
find-assign k j c [] = refl
find-assign k j c ((i, d) ∷ m) = ground (arith, find-assign k j c m)

pub find-erase_ne : (k j : ℕ) (m : ContextMap) → j ≢ k → find j (erase k m) ≡ find j m
unfolding find erase
find-erase_ne k j [] h = refl
find-erase_ne k j ((i, d) ∷ m) h = ground (arith, find-erase_ne k j m h)

pub keys-assign :
    (k : ℕ) (c : RequestContext) (m : ContextMap)
    → has k (keys m) ≡ false
    → keys (assign k c m) ≡ keys m ++ k ∷ []
unfolding assign
keys-assign k c [] h = refl
keys-assign k c ((i, d) ∷ m) h = ground (arith, keys-assign k c m)

pub has_of_find :
    (k : ℕ) (c : RequestContext) (m : ContextMap) → find k m ≡ some c → has k (keys m) ≡ true
unfolding find
has_of_find k c [] h = cc
has_of_find k c ((i, d) ∷ m) h = ground (arith, has_of_find k c m)

pub has-erase :
    (k j : ℕ) (m : ContextMap) → has j (keys m) ≡ false → has j (keys (erase k m)) ≡ false
unfolding erase
has-erase k j [] h = refl
has-erase k j ((i, d) ∷ m) h = ground (arith, has-erase k j m)

pub has-erase_self : (k : ℕ) (m : ContextMap) → IsNodup (keys m) → has k (keys (erase k m)) ≡ false
unfolding erase
has-erase_self k [] h = refl
has-erase_self k ((i, d) ∷ m) h = ground (arith, has-erase_self k m h.1)

pub erase-IsNodup : (k : ℕ) (m : ContextMap) → IsNodup (keys m) → IsNodup (keys (erase k m))
unfolding erase
erase-IsNodup k [] h = tt
erase-IsNodup k ((i, d) ∷ m) h = ground (arith, erase-IsNodup k m h.1, has-erase k i m)
