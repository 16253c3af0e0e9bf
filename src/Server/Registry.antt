-- ===== src/Server/Registry.antt =====
-- What `AddRpcService` makes of the map of listeners.
use libserverkit.Base.{
  ℕ, ◌≡◌, ◌≢◌, refl, sym, ap, ◌∙◌, true, Option, none, some, List, [], ◌∷◌, ◌==◌, arith, has,
  Bool-cases, All, IsNodup, inl, inr, ==_self, ==_ne, eq_of_==, >>=_some, if◌then◌else◌,
}
use libserverkit.Rpc.Session.{RpcMeta, MethodMetaMap, get_service, register}
use libserverkit.Rpc.Session.Register.{hashes, IsFree, register_lem}
use libserverkit.Server.Listeners.{
  Acceptor, user_handler, rpc_service, ListenerMap, find_listener, set_listener, add_rpc_to,
  add_rpc_service, rpc_on_accept, method_in, accepted_by, served_at,
}

find_listener-set_same :
    (a : ℕ) (l : Acceptor) (ls : ListenerMap) → find_listener a (set_listener a l ls) ≡ some l
unfolding find_listener set_listener
find_listener-set_same a l [] = rw (==_self a) refl
find_listener-set_same a l ((j, k) ∷ ls) = elim (Bool-cases (a == j)) [
  | inl e ↦ rw e (rw (==_self a) refl)
  | inr e ↦ rw (e, e) (find_listener-set_same a l ls)
]

find_listener-set_other :
    (b a : ℕ) (l : Acceptor) (ls : ListenerMap)
    → b ≢ a
    → find_listener b (set_listener a l ls) ≡ find_listener b ls
unfolding find_listener set_listener
find_listener-set_other b a l [] n = rw (==_ne b a n) refl
find_listener-set_other b a l ((j, k) ∷ ls) n = elim (Bool-cases (a == j)) [
  | inl e ↦
      let apart : b ≢ j = omega (arith, n, eq_of_== a j e) in
      rw e (rw (==_ne b a n, ==_ne b j apart) refl)
  | inr e ↦ rw e (ap (λ o. if b == j then some k else o) (find_listener-set_other b a l ls n))
]

-- The methods at an address that an RPC service may be added to.
abbrev pub methods_of : Option Acceptor → Option MethodMetaMap
methods_of none = some []
methods_of (some (rpc_service m)) = some m
methods_of (some (user_handler h)) = none

some_inj : (m n : MethodMetaMap) → some m ≡ some n → m ≡ n
some_inj m n e = ap (λ o. elim o [ none ↦ m | some k ↦ k ]) e

-- What was found before, among the methods of an RPC service.
method_in-before :
    (o : Option Acceptor) (m : MethodMetaMap) (k : ℕ) (x : RpcMeta)
    → methods_of o ≡ some m
    → method_in (accepted_by o) k ≡ some x
    → get_service k m ≡ some x
unfolding rpc_on_accept
method_in-before none m k x e h = cc
method_in-before (some (user_handler u)) m k x e h = cc
method_in-before (some (rpc_service n)) m k x e h = ap (get_service k) (sym (some_inj n m e)) ∙ h

module _ (hash : ℕ → ℕ) (address service : ℕ) (ms : List ℕ) where
  add_rpc_to_lem :
      (o : Option Acceptor) (m t : MethodMetaMap) (ls : ListenerMap)
      → methods_of o ≡ some m
      → register hash service ms m ≡ some t
      → add_rpc_to o hash address service ms ls ≡ some (set_listener address (rpc_service t) ls)
  unfolding add_rpc_to
  add_rpc_to_lem none m t ls e r =
      >>=_some _ _ (ap (register hash service ms) (some_inj [] m e) ∙ r) refl
  add_rpc_to_lem (some (rpc_service n)) m t ls e r =
      >>=_some _ _ (ap (register hash service ms) (some_inj n m e) ∙ r) refl
  add_rpc_to_lem (some (user_handler u)) m t ls e r = cc

  -- Where no handler of `AddService` listens at the address, and the service's methods have hashes
  -- that differ from each other and from those registered at the address: `AddRpcService` passes its
  -- assertions; then a session accepted at the address runs each of the methods for its hash, and
  -- what sessions ran at this or at other addresses they still run.
  pub add_rpc_service_lem :
      (ls : ListenerMap) (m : MethodMetaMap)
      → methods_of (find_listener address ls) ≡ some m
      → IsNodup (hashes hash service ms)
      → All (IsFree hash service m) (hashes hash service ms)
      → (ls' : ListenerMap) × (add_rpc_service hash address service ms ls ≡ some ls')
        × ((method : ℕ)
            → has method ms ≡ true
            → served_at address (hash method) ls'
              ≡ some (record { service = service; method = method }))
        × ((a k : ℕ) (x : RpcMeta) → served_at a k ls ≡ some x → served_at a k ls' ≡ some x)
  unfolding add_rpc_service rpc_on_accept
  add_rpc_service_lem ls m e d f =
      let (t, r, new, old) = register_lem hash service ms m d f in
      let l = rpc_service t in
      let same = find_listener-set_same address l ls in
      (
        set_listener address l ls,
        add_rpc_to_lem (find_listener address ls) m t ls e r,
        λ method h. ap (λ o. method_in (accepted_by o) (hash method)) same ∙ new method h,
        λ a k x h. elim (Bool-cases (a == address)) [
          | inl g ↦
              let i = eq_of_== a address g in
              ap (λ b. served_at b k (set_listener address l ls)) i
              ∙ (ap (λ o. method_in (accepted_by o) k) same
                  ∙ old k x (
                      method_in-before (find_listener address ls) m k x e
                        (ap (λ b. served_at b k ls) (sym i) ∙ h)))
          | inr g ↦
              ap (λ o. method_in (accepted_by o) k)
                (find_listener-set_other a address l ls (λ i. ground arith))
              ∙ h
        ],
      )
