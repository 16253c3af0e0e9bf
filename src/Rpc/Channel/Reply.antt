-- ===== src/Rpc/Channel/Reply.antt =====
-- A reply completes its call, whatever happened between the two.
use libserverkit.Base.{
  ℕ, suc, ◌+◌, ◌^◌, ◌<◌, ◌≡◌, ◌≢◌, refl, sym, ap, ◌∙◌, Bool, true, Option, none, some, List, [],
  ◌∷◌, arith, has-append, length, Bool-cases, inl, inr, ◌==◌, ne_of_has,
}
use libserverkit.Rpc.Packet.{Packet}
use libserverkit.Rpc.Channel.{
  SocketStatus, init, connecting, connected, closed, RpcChannel, new_channel, RequestContext, Call,
  fills, runs, call_in, call_method, on_connect, on_packet, respond, find, next_guid,
}
use libserverkit.Rpc.Channel.Map.{keys, find-assign, find-erase_ne, has_of_find}
use libserverkit.Rpc.Channel.History.{Event, calls, writable, arrives, step, after, out_in}
use libserverkit.Rpc.Channel.Once.{
  IsReady, regroup, step-IsReady, after-IsReady, new_channel-IsReady, next_guid_fresh,
}

-- No packet among the events carries the identifier `k`.
abbrev pub Silent : ℕ → List Event → Type 0
Silent k [] = Unit {0}
Silent k (calls err call ∷ es) = Silent k es
Silent k (writable ∷ es) = Silent k es
Silent k (arrives p ∷ es) = (p.guid ≢ k) × Silent k es

abbrev context_of : Call → RequestContext
context_of call = record {
  controller = call.controller;
  response = call.response;
  done = call.done;
}

module _ (parses : List ℕ → Bool) (k : ℕ) (x : RequestContext) where
  find-call :
      (st : SocketStatus) (err : ℕ) (c : RpcChannel) (call : Call)
      → k ≢ next_guid c
      → find k c.request_context ≡ some x
      → find k (call_in st err c call).0.request_context ≡ some x
  unfolding call_in
  find-call init err c call h e = find-assign (next_guid c) k _ c.request_context ∙ ground arith
  find-call connecting err c call h e =
      find-assign (next_guid c) k _ c.request_context ∙ ground arith
  find-call connected err c call h e =
      find-assign (next_guid c) k _ c.request_context ∙ ground arith
  find-call closed err c call h e = e

  find-out :
      (st : SocketStatus) (c : RpcChannel)
      → find k c.request_context ≡ some x
      → find k (out_in st c).0.request_context ≡ some x
  unfolding out_in on_connect
  find-out init c e = e
  find-out connecting c e = e
  find-out connected c e = e
  find-out closed c e = e

  find-respond :
      (parsed : Bool) (o : Option RequestContext) (c : RpcChannel) (p : Packet)
      → k ≢ p.guid
      → find k c.request_context ≡ some x
      → find k (respond parsed o c p).0.request_context ≡ some x
  unfolding respond
  find-respond parsed none c p h e = e
  find-respond parsed (some y) c p h e = find-erase_ne p.guid k c.request_context h ∙ e

  find-packet :
      (c : RpcChannel) (p : Packet)
      → k ≢ p.guid
      → find k c.request_context ≡ some x
      → find k (on_packet parses c p).0.request_context ≡ some x
  unfolding on_packet
  find-packet c p h e = elim (Bool-cases (p.method_id == 0)) [
    | inl m ↦ rw m (find-respond (parses p.content) (find p.guid c.request_context) c p h e)
    | inr m ↦ rw m e
  ]

  fresh_ne :
      (c : RpcChannel) (ran : List ℕ) (left : ℕ) (y : RequestContext)
      → IsReady c.allocate_guid c.request_context ran (suc left)
      → find k c.request_context ≡ some y
      → k ≢ next_guid c
  fresh_ne c ran left y r e =
      ne_of_has k (next_guid c) (keys c.request_context) (has_of_find k y c.request_context e) (
        ground (
          arith,
          next_guid_fresh c ran left r,
          has-append (next_guid c) (keys c.request_context) ran,
        ))

  -- An open call stays open as long as its reply does not come.
  find-after :
      (es : List Event) (c : RpcChannel) (ran : List ℕ) (left : ℕ)
      → IsReady c.allocate_guid c.request_context ran (length es + left)
      → Silent k es
      → find k c.request_context ≡ some x
      → find k (after parses c es).request_context ≡ some x
  unfolding after step call_method
  find-after [] c ran left r s e = e
  find-after (calls err call ∷ es) c ran left r s e =
      find-after es (call_in c.status err c call).0 _ left
        (step-IsReady parses c (calls err call) ran (length es + left)
          (regroup _ _ ran (length es) left r))
        s
        (find-call c.status err c call
          (fresh_ne c ran (length es + left) x (regroup _ _ ran (length es) left r) e) e)
  find-after (writable ∷ es) c ran left r s e =
      find-after es (out_in c.status c).0 _ left
        (step-IsReady parses c writable ran (length es + left) (regroup _ _ ran (length es) left r))
        s (find-out c.status c e)
  find-after (arrives p ∷ es) c ran left r s e =
      find-after es (on_packet parses c p).0 _ left
        (step-IsReady parses c (arrives p) ran (length es + left)
          (regroup _ _ ran (length es) left r))
        s.1 (find-packet c p (λ z. s.0 (sym z)) e)

find_new :
    (st : SocketStatus) (err : ℕ) (c : RpcChannel) (call : Call)
    → st ≢ closed
    → find (next_guid c) (call_in st err c call).0.request_context ≡ some (context_of call)
unfolding call_in
find_new init err c call h =
    find-assign (next_guid c) (next_guid c) _ c.request_context ∙ ground arith
find_new connecting err c call h =
    find-assign (next_guid c) (next_guid c) _ c.request_context ∙ ground arith
find_new connected err c call h =
    find-assign (next_guid c) (next_guid c) _ c.request_context ∙ ground arith
find_new closed err c call h = absurd (h refl)

-- The channel after some events.
abbrev pub reached : (List ℕ → Bool) → ℕ → List Event → RpcChannel
reached parses guid es = after parses (new_channel guid) es

-- A call with a closure is made on a channel that is not closed, after any events; other events
-- follow, fewer than 2^64 in all and with no packet of this call among them; then its reply comes,
-- and parses. The response is filled and the closure is run.
pub reply_completes :
    (parses : List ℕ → Bool) (guid err d : ℕ) (before later : List Event) (call : Call) (p : Packet)
    → length before + (suc (length later) + 1) < 2 ^ 64
    → (reached parses guid before).status ≢ closed
    → call.done ≡ some d
    → Silent (next_guid (reached parses guid before)) later
    → p.guid ≡ next_guid (reached parses guid before)
    → p.method_id ≡ 0
    → parses p.content ≡ true
    → (on_packet parses
        (after parses (call_method err (reached parses guid before) call).0 later)
        p).1
      ≡ fills call.response p.content ∷ runs p.guid d ∷ []
unfolding on_packet respond step call_method
reply_completes parses guid err d before later call p small accepted done silent same reply parsed =
    let c = reached parses guid before in
    let (ran, r) =
      after-IsReady parses (new_channel guid) before [] (suc (length later) + 1) (ready_start) in
    let found =
      find-after parses (next_guid c) (context_of call) later (call_in c.status err c call).0 _ 1
        (step-IsReady parses c (calls err call) ran (length later + 1)
          (regroup _ _ ran (length later) 1 r))
        silent (find_new c.status err c call accepted) in
    rw (
      reply,
      ap (λ k. find k (after parses (call_in c.status err c call).0 later).request_context) same
          ∙ found,
      parsed,
      done,
    )
  where
    ready_start :
        IsReady
          (new_channel guid).allocate_guid
          (new_channel guid).request_context
          []
          (length before + (suc (length later) + 1))
    ready_start = new_channel-IsReady parses guid _ small
