-- ===== src/Rpc/Channel/Open.antt =====
-- Calls that are taken out of the map of the open ones.
use libserverkit.Base.{
  ℕ, ◌≤◌, ◌<◌, ◌≡◌, refl, false, some, List, [], ◌∷◌, ◌++◌, arith, has, has-append, IsNodup,
  IsNodup-insert, All, inl, inr, eq_of_==, Bool-cases, ◌==◌,
}
use libserverkit.Rpc.Packet.{Packet}
use libserverkit.Rpc.Channel.{RequestContext, ContextMap, send_all, find, erase}
use libserverkit.Rpc.Channel.Map.{keys, has-erase}
use libserverkit.Rpc.Channel.History.{runs_of}

pub runs_of-send_all : (ps : List Packet) → runs_of (send_all ps) ≡ []
runs_of-send_all [] = refl
runs_of-send_all (p ∷ ps) = runs_of-send_all ps

pub has-above : (k a : ℕ) (xs : List ℕ) → All (λ x. x ≤ a) xs → a < k → has k xs ≡ false
has-above k a [] h l = refl
has-above k a (x ∷ xs) h l = ground (arith, has-above k a xs h.1)

-- Completing an open call moves it to those that ran.
pub erase-IsNodup_run :
    (k : ℕ) (c : RequestContext) (m : ContextMap) (ran : List ℕ)
    → find k m ≡ some c
    → IsNodup (keys m ++ ran)
    → IsNodup (keys (erase k m) ++ k ∷ ran)
unfolding find erase
erase-IsNodup_run k c [] ran e h = cc
erase-IsNodup_run k c ((i, d) ∷ m) ran e h = elim (Bool-cases (k == i)) [
  | inl hit ↦ rw hit (IsNodup-insert k (keys m) ran (ground (arith, eq_of_== k i hit)) h.1)
  | inr miss ↦ rw miss (
    ground (
      arith,
      has-append i (keys m) ran,
      has-append i (keys (erase k m)) (k ∷ ran),
      has-erase k i m,
    ),
    erase-IsNodup_run k c m ran (ground arith) h.1,
  )
]

pub erase-IsNodup_drop :
    (k : ℕ) (m : ContextMap) (ran : List ℕ)
    → IsNodup (keys m ++ ran)
    → IsNodup (keys (erase k m) ++ ran)
unfolding erase
erase-IsNodup_drop k [] ran h = h
erase-IsNodup_drop k ((i, d) ∷ m) ran h = elim (Bool-cases (k == i)) [
  | inl hit ↦ rw hit h.1
  | inr miss ↦ rw miss (
    ground (arith, has-append i (keys m) ran, has-append i (keys (erase k m)) ran, has-erase k i m),
    erase-IsNodup_drop k m ran h.1,
  )
]

pub All-erase :
    (P : ℕ → Type 0) (k : ℕ) (m : ContextMap) (ran : List ℕ)
    → All P (keys m ++ ran)
    → All P (keys (erase k m) ++ ran)
unfolding erase
All-erase P k [] ran h = h
All-erase P k ((i, d) ∷ m) ran h = elim (Bool-cases (k == i)) [
  | inl hit ↦ rw hit h.1
  | inr miss ↦ rw miss (h.0, All-erase P k m ran h.1)
]
