-- ===== src/Rpc/Channel/Order.antt =====
-- Packets leave in the order of the calls, and none is lost or made up.
use libserverkit.Base.{
  ℕ, ◌≡◌, refl, sym, ap, ◌∙◌, Bool, List, [], ◌∷◌, ◌++◌, append_assoc, append-nil, arith,
}
use libserverkit.Rpc.Packet.{Packet}
use libserverkit.Rpc.Channel.{
  SocketStatus, init, connecting, connected, closed, RpcChannel, new_channel, Call, call_method,
  on_connect, on_packet, packet_of, send_all, push_request_to_queue,
}
use libserverkit.Rpc.Channel.History.{
  Event, calls, writable, arrives, step, after, history, sends_of, sends_of-append,
}

-- The packet that an event makes: a call makes one, unless the socket is closed.
abbrev pub made : RpcChannel → Event → List Packet
made c (calls err call) = elim c.status [ closed ↦ [] | _ ↦ packet_of c call ∷ [] ]
made c writable = []
made c (arrives p) = []

-- A connected channel keeps no packet back.
abbrev pub IsSettled : RpcChannel → Type 0
IsSettled c = c.status ≡ connected → c.packet_queue ≡ []

sends_of-send_all : (ps : List Packet) → sends_of (send_all ps) ≡ ps
sends_of-send_all [] = refl
sends_of-send_all (p ∷ ps) = ap (◌∷◌ p) (sends_of-send_all ps)

module _ (parses : List ℕ → Bool) where
  abbrev pub all_made : RpcChannel → List Event → List Packet
  all_made c [] = []
  all_made c (e ∷ es) = made c e ++ all_made (step parses c e).0 es

  step-IsSettled : (c : RpcChannel) (e : Event) → IsSettled c → IsSettled (step parses c e).0
  unfolding step call_method on_connect on_packet push_request_to_queue
  step-IsSettled c (calls err call) s h = ground (arith, s)
  step-IsSettled c writable s h = ground (arith, s)
  step-IsSettled c (arrives p) s h = ground (arith, s)

  call_order :
      (err : ℕ) (c : RpcChannel) (call : Call) (st : SocketStatus)
      → c.status ≡ st
      → IsSettled c
      → sends_of (call_method err c call).1 ++ (call_method err c call).0.packet_queue
        ≡ c.packet_queue ++ made c (calls err call)
  unfolding call_method push_request_to_queue
  call_order err c call init e s = ground arith
  call_order err c call connecting e s = ground arith
  call_order err c call connected e s = ground (arith, s e)
  call_order err c call closed e s = ground (arith, append-nil c.packet_queue)

  step_order :
      (c : RpcChannel) (e : Event)
      → IsSettled c
      → sends_of (step parses c e).1 ++ (step parses c e).0.packet_queue
        ≡ c.packet_queue ++ made c e
  unfolding step call_method on_connect on_packet push_request_to_queue
  step_order c (calls err call) s = call_order err c call c.status refl s
  step_order c writable s =
      ground (arith, s, sends_of-send_all c.packet_queue, append-nil c.packet_queue)
  step_order c (arrives p) s = ground (arith, append-nil c.packet_queue)

  -- Over any sequence of events, the packets that were sent, followed by those that still wait,
  -- are those that the calls made, in the order of the calls.
  order_from :
      (c : RpcChannel) (es : List Event)
      → IsSettled c
      → sends_of (history parses c es) ++ (after parses c es).packet_queue
        ≡ c.packet_queue ++ all_made c es
  unfolding history after
  order_from c [] s = sym (append-nil c.packet_queue)
  order_from c (e ∷ es) s =
      let (d, fs) = step parses c e in
      ap (λ ps. ps ++ (after parses d es).packet_queue) (sends_of-append fs (history parses d es))
      ∙ append_assoc (sends_of fs) (sends_of (history parses d es)) (after parses d es).packet_queue
      ∙ ap (◌++◌ (sends_of fs)) (order_from d es (step-IsSettled c e s))
      ∙ sym (append_assoc (sends_of fs) d.packet_queue (all_made d es))
      ∙ ap (λ ps. ps ++ all_made d es) (step_order c e s)
      ∙ append_assoc c.packet_queue (made c e) (all_made d es)

  pub after-IsSettled :
      (c : RpcChannel) (es : List Event) → IsSettled c → IsSettled (after parses c es)
  unfolding after
  after-IsSettled c [] s = s
  after-IsSettled c (e ∷ es) s = after-IsSettled (step parses c e).0 es (step-IsSettled c e s)

  -- Over any sequence of events of a new channel: the packets sent, followed by those still queued,
  -- are the packets that the calls made, in the order of the calls.
  pub sends_in_order :
      (guid : ℕ) (es : List Event)
      → sends_of (history parses (new_channel guid) es)
          ++ (after parses (new_channel guid) es).packet_queue
        ≡ all_made (new_channel guid) es
  unfolding new_channel
  sends_in_order guid es = order_from (new_channel guid) es (λ h. refl)
