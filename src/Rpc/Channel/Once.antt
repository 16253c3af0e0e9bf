-- ===== src/Rpc/Channel/Once.antt =====
-- No call is completed twice.
use libserverkit.Base.{
  ℕ, suc, ◌+◌, ◌^◌, ◌≤◌, ◌<◌, ◌≡◌, refl, subst, Bool, true, false, Option, none, some, List, [],
  ◌∷◌, ◌++◌, append_assoc, append-nil, arith, has, has-append, IsNodup, IsNodup-insert,
  IsNodup-swap, IsNodup-right, All, All-append, All-left, All-right, All-mono, All-has, length, inl,
  inr, Bool-cases, ◌==◌,
}
use libserverkit.Rpc.Packet.{Packet}
use libserverkit.Rpc.Channel.{
  SocketStatus, init, connecting, connected, closed, RpcChannel, new_channel, RequestContext,
  ContextMap, Call, call_method, call_in, on_connect, on_packet, find, erase, settle, respond,
  next_guid, remember,
}
use libserverkit.Rpc.Channel.Map.{keys, keys-assign, has_of_find}
use libserverkit.Rpc.Channel.History.{
  Event, calls, writable, arrives, step, history, after, out_in, runs_of, runs_of-append,
}
use libserverkit.Rpc.Channel.Open.{
  runs_of-send_all, has-above, erase-IsNodup_run, erase-IsNodup_drop, All-erase,
}

-- The open calls and the completed calls `ran` are different calls, and all come from the counter,
-- which does not wrap within the next `left` events.
pub record IsReady (allocated : ℕ) (m : ContextMap) (ran : List ℕ) (left : ℕ) : Type 0 where
  pub nodup : IsNodup (keys m ++ ran)
  pub below : All (λ k. k ≤ allocated) (keys m ++ ran)
  pub room : allocated + left < 2 ^ 64

module _ (c : RpcChannel) (ran : List ℕ) (left : ℕ)
    (r : IsReady c.allocate_guid c.request_context ran (suc left)) where
  next_guid_lem : next_guid c ≡ c.allocate_guid + 1
  next_guid_lem = omega (arith, r.room)

  pub next_guid_fresh : has (next_guid c) (keys c.request_context ++ ran) ≡ false
  next_guid_fresh = has-above (next_guid c) c.allocate_guid _ r.below (omega (arith, next_guid_lem))

  keys-remember :
      (call : Call)
      → keys (remember c call).request_context ≡ keys c.request_context ++ next_guid c ∷ []
  keys-remember call =
      keys-assign (next_guid c) _ c.request_context
        (ground (arith, next_guid_fresh, has-append (next_guid c) (keys c.request_context) ran))

  remember-IsReady :
      (call : Call) → IsReady (next_guid c) (remember c call).request_context ran left
  remember-IsReady call = record {
    nodup =
        rw (keys-remember call, append_assoc)
          (IsNodup-insert (next_guid c) (keys c.request_context) ran next_guid_fresh r.nodup);
    below =
        rw (keys-remember call, append_assoc)
          (All-append _ (keys c.request_context) (next_guid c ∷ ran)
            (All-left _ (keys c.request_context) ran older)
            (omega arith, All-right _ (keys c.request_context) ran older));
    room = omega (arith, next_guid_lem, r.room);
  }
    where
      older : All (λ k. k ≤ next_guid c) (keys c.request_context ++ ran)
      older = All-mono _ _ _ (λ k h. omega (arith, next_guid_lem)) r.below

  weaken : IsReady c.allocate_guid c.request_context ran left
  weaken = record { nodup = r.nodup; below = r.below; room = omega (arith, r.room) }

  call_in-IsReady :
      (st : SocketStatus) (err : ℕ) (call : Call)
      → let (d, es) = call_in st err c call in
        IsReady d.allocate_guid d.request_context (runs_of es ++ ran) left
  unfolding call_in
  call_in-IsReady init err call = remember-IsReady call
  call_in-IsReady connecting err call = remember-IsReady call
  call_in-IsReady connected err call = remember-IsReady call
  call_in-IsReady closed err call = weaken

  erased : (k : ℕ) → IsReady c.allocate_guid (erase k c.request_context) ran left
  erased k = record {
    nodup = erase-IsNodup_drop k c.request_context ran r.nodup;
    below = All-erase _ k c.request_context ran r.below;
    room = omega (arith, r.room);
  }

  settle-IsReady :
      (parsed : Bool) (k : ℕ) (context : RequestContext) (done : Option ℕ)
      → find k c.request_context ≡ some context
      → IsReady c.allocate_guid
          (erase k c.request_context)
          (runs_of (settle parsed k done) ++ ran)
          left
  settle-IsReady parsed k context none e = erased k
  settle-IsReady false k context (some d) e = erased k
  settle-IsReady true k context (some d) e = record {
    nodup = erase-IsNodup_run k context c.request_context ran e r.nodup;
    below =
        All-append _ (keys (erase k c.request_context)) (k ∷ ran)
          (All-left _ (keys (erase k c.request_context)) ran
            (All-erase _ k c.request_context ran r.below))
          (
            All-has _ k (keys c.request_context) (All-left _ (keys c.request_context) ran r.below)
                (has_of_find k context c.request_context e),
            All-right _ (keys c.request_context) ran r.below,
          );
    room = omega (arith, r.room);
  }

  respond-IsReady :
      (parsed : Bool) (o : Option RequestContext) (p : Packet)
      → find p.guid c.request_context ≡ o
      → let (d, es) = respond parsed o c p in
        IsReady d.allocate_guid d.request_context (runs_of es ++ ran) left
  unfolding respond
  respond-IsReady parsed none p e = weaken
  respond-IsReady parsed (some context) p e = settle-IsReady parsed p.guid context context.done e

  on_packet-IsReady :
      (parses : List ℕ → Bool) (p : Packet)
      → let (d, es) = on_packet parses c p in
        IsReady d.allocate_guid d.request_context (runs_of es ++ ran) left
  unfolding on_packet
  on_packet-IsReady parses p = elim (Bool-cases (p.method_id == 0)) [
    | inl e ↦ rw e (respond-IsReady (parses p.content) (find p.guid c.request_context) p refl)
    | inr e ↦ rw e weaken
  ]

  socket_out-IsReady :
      (st : SocketStatus)
      → let (d, es) = out_in st c in
        IsReady d.allocate_guid d.request_context (runs_of es ++ ran) left
  unfolding out_in on_connect
  socket_out-IsReady init = weaken
  socket_out-IsReady connecting = rw (runs_of-send_all c.packet_queue) weaken
  socket_out-IsReady connected = weaken
  socket_out-IsReady closed = weaken

pub regroup :
    (a : ℕ) (m : ContextMap) (ran : List ℕ) (n left : ℕ)
    → IsReady a m ran (suc n + left)
    → IsReady a m ran (suc (n + left))
regroup a m ran n left r = record { nodup = r.nodup; below = r.below; room = omega (arith, r.room) }

module _ (parses : List ℕ → Bool) where
  pub step-IsReady :
      (c : RpcChannel) (e : Event) (ran : List ℕ) (left : ℕ)
      → IsReady c.allocate_guid c.request_context ran (suc left)
      → let (d, es) = step parses c e in
        IsReady d.allocate_guid d.request_context (runs_of es ++ ran) left
  unfolding step call_method
  step-IsReady c (calls err call) ran left r = call_in-IsReady c ran left r c.status err call
  step-IsReady c writable ran left r = socket_out-IsReady c ran left r c.status
  step-IsReady c (arrives p) ran left r = on_packet-IsReady c ran left r parses p

  pub after-IsReady :
      (c : RpcChannel) (es : List Event) (ran : List ℕ) (left : ℕ)
      → IsReady c.allocate_guid c.request_context ran (length es + left)
      → let d = after parses c es in
        (ran' : List ℕ) × IsReady d.allocate_guid d.request_context ran' left
  unfolding after
  after-IsReady c [] ran left r =
      (ran, record { nodup = r.nodup; below = r.below; room = omega (arith, r.room) })
  after-IsReady c (e ∷ es) ran left r =
      after-IsReady (step parses c e).0 es _ left
        (step-IsReady c e ran (length es + left) (regroup _ _ ran (length es) left r))

  once_from :
      (c : RpcChannel) (es : List Event) (ran : List ℕ)
      → IsReady c.allocate_guid c.request_context ran (length es)
      → IsNodup (runs_of (history parses c es) ++ ran)
  unfolding history
  once_from c [] ran r = IsNodup-right (keys c.request_context) ran r.nodup
  once_from c (e ∷ es) ran r =
      let (d, fs) = step parses c e in
      let rest = runs_of (history parses d es) in
      let later = once_from d es (runs_of fs ++ ran) (step-IsReady c e ran (length es) r) in
      rw (runs_of-append, append_assoc) (IsNodup-swap rest (runs_of fs) ran later)

  pub new_channel-IsReady :
      (guid left : ℕ)
      → left < 2 ^ 64
      → let c = new_channel guid in IsReady c.allocate_guid c.request_context [] left
  unfolding new_channel
  new_channel-IsReady guid left h = record { nodup = tt; below = tt; room = omega arith }

  -- Over any sequence of fewer than 2^64 events of a new channel, no call's closure is run twice,
  -- whatever packets arrive.
  pub runs_once :
      (guid : ℕ) (es : List Event)
      → length es < 2 ^ 64
      → IsNodup (runs_of (history parses (new_channel guid) es))
  runs_once guid es h =
      subst IsNodup (append-nil _)
        (once_from (new_channel guid) es [] (new_channel-IsReady guid (length es) h))
