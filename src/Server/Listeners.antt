-- ===== src/Server/Listeners.antt =====
-- core/application.cc: the map of listeners by the text of their endpoint, here a number, and the
-- services that a listener's sessions serve (rpc/rpc_service.cc, `OnAccept`). That a listener can
-- listen at its endpoint is assumed: its constructor asserts it.
use libserverkit.Base.{ℕ, Option, none, some, List, [], ◌∷◌, ◌==◌, if◌then◌else◌, ◌>>=◌}
use libserverkit.Rpc.Session.{
  RpcMeta, MethodMetaMap, get_service, register, RpcSession, new_session,
}

-- The handler of a listener: one that `AddService` was given, or an `RpcService` with its methods.
pub data Acceptor : Type 0 where
  user_handler : (handler : ℕ) → Acceptor
  rpc_service : (methods : MethodMetaMap) → Acceptor

abbrev pub ListenerMap : Type 0
ListenerMap = List (ℕ × Acceptor)

-- `listeners_.find(address)` and `listeners_[address] =`
unfoldable pub find_listener : ℕ → ListenerMap → Option Acceptor
find_listener a [] = none
find_listener a ((j, l) ∷ ls) = if a == j then some l else find_listener a ls

unfoldable pub set_listener : ℕ → Acceptor → ListenerMap → ListenerMap
set_listener a l [] = (a, l) ∷ []
set_listener a l ((j, k) ∷ ls) = if a == j then (a, l) ∷ ls else (j, k) ∷ set_listener a l ls

-- `AddService`; `none` is the failed assertion.
unfoldable pub add_service : ℕ → ℕ → ListenerMap → Option ListenerMap
unfolding find_listener set_listener
add_service address handler ls = elim (find_listener address ls) [
  | none ↦ some (set_listener address (user_handler handler) ls)
  | some l ↦ none
]

-- `AddRpcService`, from the listener that was found on. `none` is a failed assertion of `Register`,
-- and what the handler of `AddService` is cast to an `RpcService`, of which nothing is defined.
unfoldable pub add_rpc_to :
    Option Acceptor → (ℕ → ℕ) → ℕ → ℕ → List ℕ → ListenerMap → Option ListenerMap
unfolding set_listener
add_rpc_to none hash address service ms ls = do
  m ← register hash service ms []
  some (set_listener address (rpc_service m) ls)
add_rpc_to (some (rpc_service methods)) hash address service ms ls = do
  m ← register hash service ms methods
  some (set_listener address (rpc_service m) ls)
add_rpc_to (some (user_handler handler)) hash address service ms ls = none

-- `AddRpcService` of a service with the methods `ms`
unfoldable pub add_rpc_service : (ℕ → ℕ) → ℕ → ℕ → List ℕ → ListenerMap → Option ListenerMap
unfolding add_rpc_to find_listener
add_rpc_service hash address service ms ls =
    add_rpc_to (find_listener address ls) hash address service ms ls

-- `RpcService::OnAccept`: the new session, and the methods of the service that it is given.
unfoldable pub rpc_on_accept : Acceptor → Option (RpcSession × MethodMetaMap)
unfolding new_session
rpc_on_accept (rpc_service methods) = some (new_session, methods)
rpc_on_accept (user_handler handler) = none

-- The method that a session accepted at an address runs for a method's hash.
abbrev pub method_in : Option (RpcSession × MethodMetaMap) → ℕ → Option RpcMeta
method_in none k = none
method_in (some (s, methods)) k = get_service k methods

abbrev pub accepted_by : Option Acceptor → Option (RpcSession × MethodMetaMap)
accepted_by none = none
accepted_by (some l) = rpc_on_accept l

abbrev pub served_at : ℕ → ℕ → ListenerMap → Option RpcMeta
served_at address k ls = method_in (accepted_by (find_listener address ls)) k
