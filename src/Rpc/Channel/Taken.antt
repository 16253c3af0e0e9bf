-- ===== src/Rpc/Channel/Taken.antt =====
-- The calls that a channel takes, and the packets that it sends for them.
use libserverkit.Base.{
  ℕ, ◌+◌, ◌%◌, ◌^◌, ◌<◌, ◌≡◌, ◌≢◌, refl, sym, ap, ◌∙◌, Bool, false, some, List, [], ◌∷◌, ◌++◌,
  length, All, All-append, append-nil, arith,
}
use libserverkit.Rpc.Packet.{Packet, new_packet}
use libserverkit.Rpc.Packet.Laws.{IsWellFormed, new_packet-IsWellFormed}
use libserverkit.Rpc.Channel.{
  SocketStatus, init, connecting, connected, closed, RpcChannel, new_channel, Call, call_in,
  call_method, on_connect, on_packet, respond, push_request_to_queue, connect,
}
use libserverkit.Rpc.Channel.History.{
  Event, calls, writable, arrives, step, after, history, sends_of, out_in,
}
use libserverkit.Rpc.Channel.Order.{made, all_made, sends_in_order, after-IsSettled}

-- The identifier that follows `k`
abbrev pub following : ℕ → ℕ
following k = (k + 1) % 2 ^ 64

-- The method's hash is not 0, and the arguments fit into a packet.
abbrev pub IsSendable : Call → Type 0
IsSendable call =
    (call.method_hash ≢ 0) × (call.method_hash < 2 ^ 64) × (length call.request < 2 ^ 32)

abbrev pub AreSendable : List Event → Type 0
AreSendable [] = Unit {0}
AreSendable (calls err call ∷ es) = IsSendable call × AreSendable es
AreSendable (writable ∷ es) = AreSendable es
AreSendable (arrives p ∷ es) = AreSendable es

-- The call of an event, unless the socket is closed.
abbrev pub taken : Event → SocketStatus → List Call
taken writable st = []
taken (arrives p) st = []
taken (calls err call) closed = []
taken (calls err call) init = call ∷ []
taken (calls err call) connecting = call ∷ []
taken (calls err call) connected = call ∷ []

-- The packet of a call, and those of calls with the identifiers behind `k`
abbrev pub request : ℕ → Call → Packet
request k call = new_packet k (some call.method_hash) call.request false

abbrev pub packets : ℕ → List Call → List Packet
packets k [] = []
packets k (call ∷ cs) = request (following k) call ∷ packets (following k) cs

module _ (parses : List ℕ → Bool) where
  -- The calls that the channel accepts
  abbrev pub accepted : RpcChannel → List Event → List Call
  accepted c [] = []
  accepted c (e ∷ es) = taken e c.status ++ accepted (step parses c e).0 es

pub packets-IsWellFormed :
    (cs : List Call) (k : ℕ) → All IsSendable cs → All IsWellFormed (packets k cs)
packets-IsWellFormed [] k h = tt
packets-IsWellFormed (call ∷ cs) k h = (
  new_packet-IsWellFormed (following k) call.method_hash call.request false (omega arith) h.0.1
      h.0.2,
  packets-IsWellFormed cs (following k) h.1,
)

-- The counter of a channel goes on by one for every call that it takes.
pub last : ℕ → List Call → ℕ
last k [] = k
last k (call ∷ cs) = last (following k) cs

pub packets-append :
    (cs ds : List Call) (k : ℕ) → packets k (cs ++ ds) ≡ packets k cs ++ packets (last k cs) ds
unfolding last
packets-append [] ds k = refl
packets-append (call ∷ cs) ds k =
    ap (◌∷◌ (request (following k) call)) (packets-append cs ds (following k))

module _ (parses : List ℕ → Bool) where
  pub counts_call :
      (st : SocketStatus) (err : ℕ) (c : RpcChannel) (call : Call)
      → c.status ≡ st
      → ((call_in st err c call).0.allocate_guid ≡ last c.allocate_guid (taken (calls err call) st))
        × (made c (calls err call) ≡ packets c.allocate_guid (taken (calls err call) st))
  unfolding call_in last push_request_to_queue connect
  counts_call init err c call e = (refl, rw e refl)
  counts_call connecting err c call e = (refl, rw e refl)
  counts_call connected err c call e = (refl, rw e refl)
  counts_call closed err c call e = (refl, rw e refl)

  pub counts :
      (c : RpcChannel) (e : Event)
      → ((step parses c e).0.allocate_guid ≡ last c.allocate_guid (taken e c.status))
        × (made c e ≡ packets c.allocate_guid (taken e c.status))
  unfolding step call_method on_connect on_packet respond out_in last
  counts c (calls err call) = counts_call c.status err c call refl
  counts c writable = ground arith
  counts c (arrives p) = ground arith

  pub all_made-packets :
      (es : List Event) (c : RpcChannel)
      → all_made parses c es ≡ packets c.allocate_guid (accepted parses c es)
  all_made-packets [] c = refl
  all_made-packets (e ∷ es) c =
      let (next, packet) = counts c e in
      let d = (step parses c e).0 in
      rw (packet, all_made-packets es d, next)
        (sym (packets-append (taken e c.status) (accepted parses d es) c.allocate_guid))

  pub taken-IsSendable :
      (st : SocketStatus) (err : ℕ) (call : Call)
      → IsSendable call
      → All IsSendable (taken (calls err call) st)
  taken-IsSendable init err call h = (h, tt)
  taken-IsSendable connecting err call h = (h, tt)
  taken-IsSendable connected err call h = (h, tt)
  taken-IsSendable closed err call h = tt

  pub accepted-IsSendable :
      (es : List Event) (c : RpcChannel) → AreSendable es → All IsSendable (accepted parses c es)
  accepted-IsSendable [] c h = tt
  accepted-IsSendable (writable ∷ es) c h = accepted-IsSendable es (step parses c writable).0 h
  accepted-IsSendable (arrives p ∷ es) c h = accepted-IsSendable es (step parses c (arrives p)).0 h
  accepted-IsSendable (calls err call ∷ es) c h =
      let d = (step parses c (calls err call)).0 in
      All-append _ (taken (calls err call) c.status) (accepted parses d es)
        (taken-IsSendable c.status err call h.0) (accepted-IsSendable es d h.1)

  -- A connected channel has sent the packets of the calls that it took.
  pub sent-packets :
      (guid : ℕ) (es : List Event)
      → (after parses (new_channel guid) es).status ≡ connected
      → sends_of (history parses (new_channel guid) es)
        ≡ packets 0 (accepted parses (new_channel guid) es)
  unfolding new_channel
  sent-packets guid es up =
      let c = new_channel guid in
      let none_waits = after-IsSettled parses c es (λ h. refl) up in
      sym (append-nil (sends_of (history parses c es)))
      ∙ ap (λ ps. sends_of (history parses c es) ++ ps) (sym none_waits)
      ∙ sends_in_order parses guid es
      ∙ all_made-packets es c
