-- ===== src/Rpc/Stream.antt =====
-- The loops of `RpcChannel::OnRead` and `RpcSession::OnRead` (rpc/rpc_channel.cc and
-- rpc/rpc_session.cc) over the parser and its byte queue: packets are received and handled until
-- `RecvPacket` fails. Bytes that have arrived are in the queue before `OnRead` is called
-- (core/socket.cc, `In`).
pub mod Waiting
pub mod Pieces
pub mod Resume
pub mod Arrivals
pub mod Connection
pub mod Served
use libserverkit.Base.{
  ℕ, zero, suc, Bool, true, false, Option, none, some, List, [], ◌∷◌, ◌++◌, if◌then◌else◌, ◌>>=◌,
}
use libserverkit.ByteQueue.{ByteQueue}
use libserverkit.Rpc.Packet.{Packet, encode}
use libserverkit.Rpc.Parser.{Parser, recv_packet}
use libserverkit.Rpc.Channel.{RpcChannel, Effect, on_packet}
use libserverkit.Rpc.Session.{RpcMeta, MethodMetaMap, RpcSession, Action, on_session_packet}

-- The parser, the queue, the end of the connection that handles the packets, and what it did.
abbrev pub Outcome : Type 0 → Type 0 → Type 0 → Type 0
Outcome Q S E = Option (Parser × Q × S × List E)

abbrev pub done_before : {Q S E : Type 0} → List E → Outcome Q S E → Outcome Q S E
done_before es none = none
done_before es (some (m, s, c, es')) = some (m, s, c, es ++ es')

module _ (q : ByteQueue) {S E : Type 0} (handle : S → Packet → S × List E) where
  -- `while (parser_->RecvPacket())`; `none` is a loop that does not end within the fuel.
  unfoldable pub read_packets : ℕ → Parser → ByteQueue.State q → S → Outcome (ByteQueue.State q) S E
  read_packets zero m s c = none
  read_packets (suc fuel) m s c = do
    (more, m', t) ← recv_packet q m s
    let rest = read_packets fuel m' t (handle c m'.packet).0
    if more then done_before (handle c m'.packet).1 rest else some (m', t, c, [])

  -- One round more than there are bytes.
  abbrev pub on_read : Parser → ByteQueue.State q → S → Outcome (ByteQueue.State q) S E
  on_read m s c = read_packets (suc (q.size s)) m s c

  -- Bytes arrive in pieces, and `OnRead` runs after each piece.
  unfoldable pub arrivals :
      List (List ℕ) → Parser → ByteQueue.State q → S → Outcome (ByteQueue.State q) S E
  unfolding read_packets
  arrivals [] m s c = some (m, s, c, [])
  arrivals (piece ∷ pieces) m s c = do
    (n, t) ← ByteQueue.write q piece s
    (m', t', c', es) ← on_read m t c
    done_before es (arrivals pieces m' t' c')

  -- The packets handled one after another.
  abbrev pub handle_all : List Packet → S → S × List E
  handle_all [] c = (c, [])
  handle_all (p ∷ ps) c =
      let (c', es) = handle c (record p { recv_done = true }) in
      let (c'', es') = handle_all ps c' in (c'', es ++ es')

-- `RpcChannel::OnRead` and `RpcSession::OnRead`
unfoldable pub channel_on_read :
    (q : ByteQueue)
    → (List ℕ → Bool)
    → Parser
    → ByteQueue.State q
    → RpcChannel
    → Outcome (ByteQueue.State q) RpcChannel Effect
unfolding read_packets
channel_on_read q parses = on_read q (on_packet parses)

unfoldable pub session_on_read :
    (q : ByteQueue)
    → (RpcMeta → List ℕ → Bool)
    → MethodMetaMap
    → Parser
    → ByteQueue.State q
    → RpcSession
    → Outcome (ByteQueue.State q) RpcSession Action
unfolding read_packets
session_on_read q parses_request methods = on_read q (on_session_packet parses_request methods)

-- The bytes of a sequence of packets.
abbrev pub encode_all : List Packet → List ℕ
encode_all [] = []
encode_all (p ∷ ps) = encode p ++ encode_all ps

abbrev pub joined : List (List ℕ) → List ℕ
joined [] = []
joined (piece ∷ pieces) = piece ++ joined pieces
