-- ===== src/Rpc/Session/Register.antt =====
-- What `Register` leaves in the map.
use libserverkit.Base.{
  ℕ, ◌≡◌, ◌≢◌, refl, sym, ap, ◌∙◌, true, false, Option, none, some, List, [], ◌∷◌, ◌==◌, arith, has,
  Bool-cases, All, IsNodup, inl, inr, ==_self, ==_ne, eq_of_==,
}
use libserverkit.Rpc.Session.{RpcMeta, MethodMetaMap, get_service, register, unless_there}

unless_there-some :
    (o : Option RpcMeta) (rest : Option MethodMetaMap) (t : MethodMetaMap)
    → unless_there o rest ≡ some t
    → (o ≡ none) × (rest ≡ some t)
unless_there-some none rest t h = (refl, h)
unless_there-some (some x) rest t h = cc

module _ (hash : ℕ → ℕ) (service : ℕ) where
  abbrev pub meta_of : ℕ → RpcMeta
  meta_of method = record { service = service; method = method }

  none_ne : (x : RpcMeta) → none ≢ some x
  none_ne x e = cc

  -- Before a method is registered there is none with its hash.
  get_service-cons :
      (k method : ℕ) (m : MethodMetaMap) (x : RpcMeta)
      → get_service (hash method) m ≡ none
      → get_service k m ≡ some x
      → get_service k ((hash method, meta_of method) ∷ m) ≡ some x
  unfolding get_service
  get_service-cons k method m x free found = elim (Bool-cases (k == hash method)) [
    | inl e ↦ absurd (
        none_ne x (sym free ∙ ap (λ j. get_service j m) (sym (eq_of_== k (hash method) e)) ∙ found))
    | inr e ↦ rw e found
  ]

  -- What is registered stays.
  get_service-register :
      (k : ℕ) (ms : List ℕ) (m t : MethodMetaMap) (x : RpcMeta)
      → register hash service ms m ≡ some t
      → get_service k m ≡ some x
      → get_service k t ≡ some x
  unfolding register
  get_service-register k [] m t x done found = cc
  get_service-register k (method ∷ ms) m t x done found =
      let (free, rest) = unless_there-some _ _ t done in
      get_service-register k ms _ t x rest (get_service-cons k method m x free found)

  -- After `Register` went through, each of the methods is found by the hash of its name.
  get_service-register_new :
      (ms : List ℕ) (m t : MethodMetaMap) (method : ℕ)
      → register hash service ms m ≡ some t
      → has method ms ≡ true
      → get_service (hash method) t ≡ some (meta_of method)
  unfolding register get_service
  get_service-register_new [] m t method done h = cc
  get_service-register_new (head ∷ ms) m t method done h =
      let after = (hash head, meta_of head) ∷ m in
      let (free, rest) =
        unless_there-some (get_service (hash head) m) (register hash service ms after) t done in
      elim (Bool-cases (method == head)) [
        | inl e ↦
            ap (λ j. get_service (hash j) t) (eq_of_== method head e)
            ∙ get_service-register (hash head) ms after t (meta_of head) rest (rw ==_self)
            ∙ ap (λ j. some (meta_of j)) (sym (eq_of_== method head e))
        | inr e ↦ get_service-register_new ms after t method rest (ground arith)
      ]

  abbrev pub hashes : List ℕ → List ℕ
  hashes [] = []
  hashes (method ∷ ms) = hash method ∷ hashes ms

  abbrev pub IsFree : MethodMetaMap → ℕ → Type 0
  IsFree m k = get_service k m ≡ none

  IsFree-cons :
      (ks : List ℕ) (k : ℕ) (x : RpcMeta) (m : MethodMetaMap)
      → has k ks ≡ false
      → All (IsFree m) ks
      → All (IsFree ((k, x) ∷ m)) ks
  unfolding get_service
  IsFree-cons [] k x m h a = tt
  IsFree-cons (j ∷ ks) k x m h a =
      (rw (==_ne j k (ground arith)) a.0, IsFree-cons ks k x m (ground arith) a.1)

  register_ends :
      (ms : List ℕ) (m : MethodMetaMap)
      → IsNodup (hashes ms)
      → All (IsFree m) (hashes ms)
      → (t : MethodMetaMap) × (register hash service ms m ≡ some t)
  unfolding register
  register_ends [] m d a = (m, refl)
  register_ends (method ∷ ms) m d a =
      let (t, e) =
        register_ends ms ((hash method, meta_of method) ∷ m) d.1
          (IsFree-cons (hashes ms) (hash method) (meta_of method) m d.0 a.1) in
      (t, rw a.0 e)

  -- For methods whose names have different hashes, none of which is registered yet, `Register`
  -- passes its assertions, and then each of the methods is found by its hash, and what was
  -- registered before is still found.
  pub register_lem :
      (ms : List ℕ) (m : MethodMetaMap)
      → IsNodup (hashes ms)
      → All (IsFree m) (hashes ms)
      → (t : MethodMetaMap) × (register hash service ms m ≡ some t)
        × ((method : ℕ)
            → has method ms ≡ true
            → get_service (hash method) t ≡ some (meta_of method))
        × ((k : ℕ) (x : RpcMeta) → get_service k m ≡ some x → get_service k t ≡ some x)
  register_lem ms m d a =
      let (t, e) = register_ends ms m d a in
      (
        t,
        e,
        λ method h. get_service-register_new ms m t method e h,
        λ k x found. get_service-register k ms m t x e found,
      )
