-- ===== src/Rpc/Channel.antt =====
-- rpc/rpc_channel.h and rpc/rpc_channel.cc: the client end. Protobuf is a parameter: a message is
-- the bytes that it serialises to, and `parses` says whether `ParseFromString` accepts some bytes.
-- Controllers, response messages and closures are addresses. What the methods do outside the
-- channel is a list of effects, in order.
pub mod Map
pub mod History
pub mod Open
pub mod Once
pub mod Order
pub mod Reply
pub mod Taken
use libserverkit.Base.{
  ℕ, zero, suc, ◌+◌, ◌%◌, ◌^◌, ◌≡◌, Bool, true, false, Option, none, some, List, [], ◌∷◌, ◌++◌,
  ◌==◌, if◌then◌else◌, not,
}
use libserverkit.Rpc.Packet.{Packet, new_packet}

-- core/socket.h, `SocketStatus`
pub data SocketStatus : Type 0 where
  init connecting connected closed : SocketStatus

-- rpc/request_context.h
pub record RequestContext : Type 0 where
  pub controller : ℕ
  pub response : ℕ
  pub done : Option ℕ

pub data Effect : Type 0 where
  -- `controller->Init(channel_guid, call_guid)`
  inits : (controller channel_guid call_guid : ℕ) → Effect
  -- `parser_->SendPacket(packet)`
  sends : Packet → Effect
  -- `socket_->Connect()`
  connects : Effect
  -- `response->ParseFromString(content)`
  fills : (response : ℕ) → List ℕ → Effect
  -- `cb->Run()` for the context of a call
  runs : (call_guid closure : ℕ) → Effect
  -- `delete done` in the destructor of a context
  drops : (closure : ℕ) → Effect

abbrev pub ContextMap : Type 0
ContextMap = List (ℕ × RequestContext)

-- `std::map`: `find`, `operator[] =` and `erase`.
unfoldable pub find : ℕ → ContextMap → Option RequestContext
find k [] = none
find k ((j, c) ∷ m) = if k == j then some c else find k m

unfoldable pub erase : ℕ → ContextMap → ContextMap
erase k [] = []
erase k ((j, c) ∷ m) = if k == j then m else (j, c) ∷ erase k m

unfoldable pub assign : ℕ → RequestContext → ContextMap → ContextMap
assign k c [] = (k, c) ∷ []
assign k c ((j, d) ∷ m) = if k == j then (k, c) ∷ m else (j, d) ∷ assign k c m

pub record RpcChannel : Type 0 where
  pub status : SocketStatus
  pub guid : ℕ
  pub allocate_guid : ℕ
  pub packet_queue : List Packet
  pub request_context : ContextMap

-- The arguments of `CallMethod`: the hash of the method's name, the request's bytes.
pub record Call : Type 0 where
  pub method_hash : ℕ
  pub controller : ℕ
  pub request : List ℕ
  pub response : ℕ
  pub done : Option ℕ

-- `RpcChannel(endpoint, poller)`, with the identifier that `NewGlobalID` gave.
unfoldable pub new_channel : ℕ → RpcChannel
new_channel guid = record {
  status = init;
  guid = guid;
  allocate_guid = 0;
  packet_queue = [];
  request_context = [];
}

abbrev pub next_guid : RpcChannel → ℕ
next_guid c = (c.allocate_guid + 1) % 2 ^ 64

abbrev pub packet_of : RpcChannel → Call → Packet
packet_of c call = new_packet (next_guid c) (some call.method_hash) call.request false

-- What `pushRequestToQueue` and the connected branch of `CallMethod` have in common: a new call
-- identifier and its context.
abbrev pub remember : RpcChannel → Call → RpcChannel
remember c call = record c {
  allocate_guid = next_guid c;
  request_context =
      assign (next_guid c)
        (record { controller = call.controller; response = call.response; done = call.done })
        c.request_context;
}

unfoldable pub push_request_to_queue : RpcChannel → Call → RpcChannel × List Effect
push_request_to_queue c call = (
  record (remember c call) { packet_queue = c.packet_queue ++ packet_of c call ∷ [] },
  inits call.controller c.guid (next_guid c) ∷ [],
)

-- `Socket::Connect` (core/socket.cc): `err` is what `ConnectAsync` returns, 0 for `kOK`. On an
-- error it calls `OnConnect`, which only logs.
unfoldable pub connect : ℕ → RpcChannel → RpcChannel
connect err c = record c { status = if err == 0 then connecting else closed }

-- `CallMethod`, by the socket's status; `err` is what the connect attempt returns, where there is
-- one.
unfoldable pub call_in : SocketStatus → ℕ → RpcChannel → Call → RpcChannel × List Effect
unfolding push_request_to_queue connect
call_in closed err c call = (c, [])
call_in connected err c call =
    (remember c call, inits call.controller c.guid (next_guid c) ∷ sends (packet_of c call) ∷ [])
call_in init err c call =
    let (c', es) = push_request_to_queue c call in (connect err c', es ++ connects ∷ [])
call_in connecting err c call = push_request_to_queue c call

unfoldable pub call_method : ℕ → RpcChannel → Call → RpcChannel × List Effect
unfolding call_in
call_method err c call = call_in c.status err c call

abbrev pub send_all : List Packet → List Effect
send_all [] = []
send_all (p ∷ ps) = sends p ∷ send_all ps

-- `Socket::Out` sets the status, then calls `OnConnect(kOK)`.
unfoldable pub on_connect : RpcChannel → RpcChannel × List Effect
on_connect c = (record c { status = connected; packet_queue = [] }, send_all c.packet_queue)

-- `context->Run()` where the response was parsed; else the destructor of the context has the closure.
abbrev pub settle : Bool → ℕ → Option ℕ → List Effect
settle parsed guid none = []
settle true guid (some d) = runs guid d ∷ []
settle false guid (some d) = drops d ∷ []

-- The rest of the loop's body, after the search for the context.
unfoldable pub respond :
    Bool → Option RequestContext → RpcChannel → Packet → RpcChannel × List Effect
respond parsed none c p = (c, [])
respond parsed (some context) c p = (
  record c { request_context = erase p.guid c.request_context },
  fills context.response p.content ∷ settle parsed p.guid context.done,
)

-- The body of the loop of `OnRead` for one packet.
unfoldable pub on_packet : (List ℕ → Bool) → RpcChannel → Packet → RpcChannel × List Effect
unfolding respond
on_packet parses c p =
    if not (p.method_id == 0)
    then (c, [])
    else respond (parses p.content) (find p.guid c.request_context) c p
