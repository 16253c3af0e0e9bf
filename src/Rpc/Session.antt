-- ===== src/Rpc/Session.antt =====
-- rpc/rpc_session.h, rpc/rpc_session.cc, rpc/rpc_service.cc and rpc/rpc_meta.h: the server end. A
-- service and a method are addresses; a service's method is called with the request's bytes, and
-- whenever it calls its closure, `onResponse` runs. `parses_request` says which bytes are a request
-- of a method, and `hash` is the hash of a method's full name.
pub mod Register
pub mod Methods
use libserverkit.Base.{
  ℕ, ◌+◌, ◌%◌, ◌^◌, Bool, true, false, Option, none, some, List, [], ◌∷◌, ◌==◌, if◌then◌else◌, not,
}
use libserverkit.Rpc.Packet.{Packet, new_packet}
use libserverkit.Rpc.Channel.{
  SocketStatus, init, connecting, connected, closed, ContextMap, RequestContext, Call, Effect,
  inits, sends, fills, runs, find, erase, assign,
}

pub record RpcMeta : Type 0 where
  pub service : ℕ
  pub method : ℕ

-- `RpcService::method_map_`
abbrev pub MethodMetaMap : Type 0
MethodMetaMap = List (ℕ × RpcMeta)

unfoldable pub get_service : ℕ → MethodMetaMap → Option RpcMeta
get_service k [] = none
get_service k ((j, meta) ∷ m) = if k == j then some meta else get_service k m

-- The assertion of `Register` that a method is new.
abbrev pub unless_there : Option RpcMeta → Option MethodMetaMap → Option MethodMetaMap
unless_there none rest = rest
unless_there (some meta) rest = none

-- `Register`, over the methods of the service. A method that is there already stops the program.
unfoldable pub register : (ℕ → ℕ) → ℕ → List ℕ → MethodMetaMap → Option MethodMetaMap
unfolding get_service
register hash service [] m = some m
register hash service (method ∷ ms) m =
    let rest =
      register hash service ms ((hash method, record { service = service; method = method }) ∷ m) in
    unless_there (get_service (hash method) m) rest

pub record ResponseContext : Type 0 where
  pub channel_guid : ℕ
  pub guid : ℕ

-- What a session does: an effect as of a channel, or a call of a service's method.
pub data Action : Type 0 where
  does : Effect → Action
  serves : RpcMeta → List ℕ → ResponseContext → Action

pub record RpcSession : Type 0 where
  pub session_guid : ℕ
  pub allocated : ℕ
  pub contexts : ContextMap

-- `RpcSession(fd)`
unfoldable pub new_session : RpcSession
new_session = record { session_guid = 0; allocated = 0; contexts = [] }

-- `RunService`, from the method that was looked up on.
unfoldable pub run_method : (RpcMeta → List ℕ → Bool) → Option RpcMeta → Packet → ℕ → List Action
run_method parses_request none p channel_guid = []
run_method parses_request (some meta) p channel_guid =
    if parses_request meta p.content
    then serves meta p.content (record { channel_guid = channel_guid; guid = p.guid }) ∷ []
    else []

-- `RunService`
unfoldable pub run_service : (RpcMeta → List ℕ → Bool) → MethodMetaMap → Packet → ℕ → List Action
unfolding run_method get_service
run_service parses_request methods p channel_guid =
    run_method parses_request (get_service p.method_id methods) p channel_guid

-- `RequestContext::Run`
abbrev pub run_closure : ℕ → Option ℕ → List Action
run_closure guid none = []
run_closure guid (some d) = does (runs guid d) ∷ []

-- The rest of the loop's body for a reply. The closure runs whether the response was parsed or not.
unfoldable pub complete : Option RequestContext → RpcSession → Packet → RpcSession × List Action
complete none s p = (s, [])
complete (some context) s p = (
  record s { contexts = erase p.guid s.contexts },
  does (fills context.response p.content) ∷ run_closure p.guid context.done,
)

-- The body of the loop of `OnRead` for one packet.
unfoldable pub on_session_packet :
    (RpcMeta → List ℕ → Bool) → MethodMetaMap → RpcSession → Packet → RpcSession × List Action
unfolding run_service complete
on_session_packet parses_request methods s p =
    if not (p.method_id == 0)
    then (s, run_service parses_request methods p s.session_guid)
    else complete (find p.guid s.contexts) s p

-- `onResponse`
unfoldable pub on_response : ResponseContext → List ℕ → List Action
on_response context response = does (sends (new_packet context.guid none response false)) ∷ []

-- `CallMethod` where the socket is not closed.
unfoldable pub session_send : RpcSession → Call → RpcSession × List Action
session_send s call =
    let guid = (s.allocated + 1) % 2 ^ 64 in
    (
      record s {
        allocated = guid;
        contexts =
            assign guid
              (record { controller = call.controller; response = call.response; done = call.done })
              s.contexts;
      },
      does (inits call.controller s.session_guid guid)
          ∷ does (sends (new_packet guid (some call.method_hash) call.request false))
          ∷ [],
    )

-- `CallMethod`, by the socket's status.
unfoldable pub session_call : SocketStatus → RpcSession → Call → RpcSession × List Action
unfolding session_send
session_call closed s call = (s, [])
session_call init s call = session_send s call
session_call connecting s call = session_send s call
session_call connected s call = session_send s call
