-- ===== src/Rpc/Controller.antt =====
-- rpc/rpc_controller.h, and what a call's effects make of its controller.
use libserverkit.Base.{ℕ, Bool, false, List, [], ◌∷◌, ◌≡◌, ◌≢◌, refl, ◌==◌, ==_self, if◌then◌else◌}
use libserverkit.Rpc.Packet.{new_packet}
use libserverkit.Rpc.Channel.{
  Effect, inits, RpcChannel, SocketStatus, init, connecting, connected, closed, Call, call_method,
  call_in, push_request_to_queue, packet_of,
}

pub record RpcController : Type 0 where
  pub call_guid : ℕ
  pub channel_guid : ℕ
  pub server_fail_reason : List ℕ

-- `RpcController()`
unfoldable pub new_controller : RpcController
new_controller = record { call_guid = 0; channel_guid = 0; server_fail_reason = [] }

-- `Init`
unfoldable pub init_controller : ℕ → ℕ → RpcController → RpcController
init_controller channel_guid call_guid c = record c {
  channel_guid = channel_guid;
  call_guid = call_guid;
}

-- `GetCallGuid` and `GetChannelGuid`
abbrev pub get_call_guid : RpcController → ℕ
get_call_guid c = c.call_guid

abbrev pub get_channel_guid : RpcController → ℕ
get_channel_guid c = c.channel_guid

-- `SetFailed`, `Failed` and `ErrorText`
unfoldable pub set_failed : List ℕ → RpcController → RpcController
set_failed reason c = record c { server_fail_reason = reason }

unfoldable pub failed : RpcController → Bool
failed c = false

unfoldable pub error_text : RpcController → List ℕ
error_text c = []

-- What the effects of a channel's methods make of the controller at the address `k`.
abbrev pub controlled : ℕ → List Effect → RpcController → RpcController
controlled k [] c = c
controlled k (inits j channel_guid call_guid ∷ es) c =
    controlled k es (if k == j then init_controller channel_guid call_guid c else c)
controlled k (_ ∷ es) c = controlled k es c

by_status :
    (s : SocketStatus) (err : ℕ) (c : RpcChannel) (call : Call) (old : RpcController)
    → s ≢ closed
    → let after = controlled call.controller (call_in s err c call).1 old in
      (get_call_guid after ≡ (packet_of c call).guid) × (get_channel_guid after ≡ c.guid)
unfolding call_in push_request_to_queue init_controller new_packet
by_status init err c call old n = rw (==_self call.controller) (refl, refl)
by_status connecting err c call old n = rw (==_self call.controller) (refl, refl)
by_status connected err c call old n = rw (==_self call.controller) (refl, refl)
by_status closed err c call old n = absurd (n refl)

-- A call on a channel that is not closed leaves the identifiers of the packet and of the channel in
-- its controller.
pub controlled-call_method :
    (err : ℕ) (c : RpcChannel) (call : Call) (old : RpcController)
    → c.status ≢ closed
    → let after = controlled call.controller (call_method err c call).1 old in
      (get_call_guid after ≡ (packet_of c call).guid) × (get_channel_guid after ≡ c.guid)
unfolding call_method
controlled-call_method err c call old n = by_status c.status err c call old n
