-- ===== src/Rpc/Stream/Served.antt =====
-- The calls of a channel, on their way over the wire to a session.
use libserverkit.Base.{
  ℕ, ◌≡◌, refl, ap, ◌∙◌, Bool, true, Option, none, some, List, [], ◌∷◌, ◌++◌, All, ==_ne,
  if◌then◌else◌,
}
use libserverkit.ByteQueue.{ByteQueue}
use libserverkit.Rpc.Packet.{empty_packet, new_packet}
use libserverkit.Rpc.Parser.{Parser, recv_header}
use libserverkit.Rpc.Channel.{connected, new_channel, Call}
use libserverkit.Rpc.Channel.History.{Event, after, history, sends_of}
use libserverkit.Rpc.Session.{
  RpcMeta, MethodMetaMap, RpcSession, Action, serves, get_service, on_session_packet, run_service,
  run_method,
}
use libserverkit.Rpc.Stream.{Outcome, arrivals, handle_all, encode_all, joined}
use libserverkit.Rpc.Stream.Arrivals.{IsPiece, arrivals_refine}
use libserverkit.Rpc.Channel.Taken.{
  following, IsSendable, AreSendable, request, packets, packets-IsWellFormed, accepted,
  accepted-IsSendable, sent-packets,
}

-- `OnRead` of a session, with a new parser, after each piece that arrives
abbrev pub session_arrivals :
    (q : ByteQueue)
    → (RpcMeta → List ℕ → Bool)
    → MethodMetaMap
    → List (List ℕ)
    → ByteQueue.State q
    → RpcSession
    → Outcome (ByteQueue.State q) RpcSession Action
session_arrivals q parses_request methods pieces =
    arrivals q (on_session_packet parses_request methods) pieces
      (record { state = recv_header; packet = empty_packet })

module _ (parses_request : RpcMeta → List ℕ → Bool) (methods : MethodMetaMap) where
  -- What a session with the identifier `guid` is to do for a call with the identifier `k`
  abbrev pub service_of : ℕ → ℕ → Call → Option RpcMeta → List Action
  service_of guid k call none = []
  service_of guid k call (some meta) =
      if parses_request meta call.request
      then serves meta call.request (record { channel_guid = guid; guid = k }) ∷ []
      else []

  -- The same for calls in their order, the identifiers of which follow `k`
  abbrev pub services : ℕ → ℕ → List Call → List Action
  services guid k [] = []
  services guid k (call ∷ cs) =
      service_of guid (following k) call (get_service call.method_hash methods)
      ++ services guid (following k) cs

  handles_request :
      (call : Call) (k : ℕ) (s : RpcSession)
      → IsSendable call
      → on_session_packet parses_request methods s (record (request k call) { recv_done = true })
        ≡ (s, service_of s.session_guid k call (get_service call.method_hash methods))
  unfolding on_session_packet run_service run_method new_packet
  handles_request call k s h =
      rw (==_ne call.method_hash 0 h.0)
        (ap (λ es. (s, es)) (runs_method (get_service call.method_hash methods)))
    where
      runs_method :
          (o : Option RpcMeta)
          → run_method parses_request o
              (record (request k call) { recv_done = true })
              s.session_guid
            ≡ service_of s.session_guid k call o
      runs_method none = refl
      runs_method (some meta) = refl

  handle_all-packets :
      (q : ByteQueue) (cs : List Call) (k : ℕ) (s : RpcSession)
      → All IsSendable cs
      → handle_all q (on_session_packet parses_request methods) (packets k cs) s
        ≡ (s, services s.session_guid k cs)
  handle_all-packets q [] k s h = refl
  handle_all-packets q (call ∷ cs) k s h =
      rw (handles_request call (following k) s h.0, handle_all-packets q cs (following k) s h.1)
        refl

module _ (parses : List ℕ → Bool) (parses_request : RpcMeta → List ℕ → Bool)
    (methods : MethodMetaMap) (q : ByteQueue) where
  -- A new channel goes through any events, in which the methods' hashes are not 0 and the arguments
  -- fit into packets, and it is connected at their end; what it sent arrives at a session with an
  -- empty queue, in any pieces, each of up to 2^63 bytes, with `OnRead` called after each. All the
  -- calls of `OnRead` return, and what the session does is to run the calls that the channel did not
  -- refuse, in their order and each once: the method that is registered with the call's hash, if there
  -- is one that can parse the request, with the request's bytes and the call's number; the session
  -- itself stays as it was, and no byte is left in the queue.
  pub calls_served :
      (guid : ℕ) (es : List Event) (pieces : List (List ℕ)) (t : ByteQueue.State q) (s : RpcSession)
      → AreSendable es
      → (after parses (new_channel guid) es).status ≡ connected
      → joined pieces ≡ encode_all (sends_of (history parses (new_channel guid) es))
      → All IsPiece pieces
      → ByteQueue.Holds q t []
      → (m : Parser) × (u : ByteQueue.State q) × (session_arrivals q parses_request methods pieces t
            s
          ≡ some (
            m,
            u,
            s,
            services parses_request methods s.session_guid 0
                (accepted parses (new_channel guid) es),
          ))
        × ByteQueue.Holds q u []
  calls_served guid es pieces t s h up e few k =
      let cs = accepted parses (new_channel guid) es in
      let fit = accepted-IsSendable parses es (new_channel guid) h in
      let (m, u, done, k') =
        arrivals_refine q (on_session_packet parses_request methods) pieces (packets 0 cs)
          empty_packet t s (packets-IsWellFormed cs 0 fit) few
          (e ∙ ap encode_all (sent-packets parses guid es up)) k in
      (
        m,
        u,
        done
            ∙ ap (λ r. some (m, u, r.0, r.1))
                (handle_all-packets parses_request methods q cs 0 s fit),
        k',
      )
