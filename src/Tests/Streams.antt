-- ===== src/Tests/Streams.antt =====
-- Packets and calls whose bytes arrive in pieces, at a session with one method.
use libserverkit.Base.{
  ℕ, inl, ◌^◌, ◌≤◌, ◌++◌, length, ◌≡◌, refl, Bool, true, false, some, List, [], ◌∷◌, All, arith,
  take, drop,
}
use libserverkit.ByteQueue.{ByteQueue}
use libserverkit.ByteQueue.OfBufferList.{of_buffer_list}
use libserverkit.Rpc.Packet.{Packet, empty_packet, new_packet, encode, encode_meta, bytes_of}
use libserverkit.Rpc.Packet.Laws.{IsWellFormed, new_packet-IsWellFormed}
use libserverkit.Rpc.Parser.{Parser, recv_header}
use libserverkit.Rpc.Channel.{
  Call, new_channel, connected, call_method, call_in, push_request_to_queue, connect, on_connect,
  on_packet, respond, find, erase, assign,
}
use libserverkit.Rpc.Channel.History.{
  Event, calls, writable, arrives, after, history, step, out_in, sends_of,
}
use libserverkit.Rpc.Stream.Served.{services, session_arrivals, calls_served}
use libserverkit.Rpc.Channel.Taken.{AreSendable, accepted}
use libserverkit.Rpc.Session.{
  get_service, serves, RpcMeta, MethodMetaMap, new_session, on_session_packet,
}
use libserverkit.Rpc.Stream.{encode_all, joined}
use libserverkit.Rpc.Stream.Arrivals.{IsPiece}
use libserverkit.BufferList.{writeable_size}
use libserverkit.Net.{ReadAnswer, got, read_failed, eagain}
use libserverkit.Net.Script.{arrived, HasRoom}
use libserverkit.Rpc.Session.{RpcSession}
use libserverkit.Rpc.Stream.Connection.{Connection, IsAt, Handled, connection_in_refines}
use libserverkit.Tests.Net.{pool, read_list, read_list-Rep}
use libserverkit.Tests.Sockets.{server}
use libserverkit.Tests.Buffers.{start, start-Rep}

abbrev queue : ByteQueue
queue = of_buffer_list []

-- A request, and a reply to a call that the session has not made.
abbrev requests : List Packet
requests =
    new_packet 258 (some 77) (7 ∷ 8 ∷ 9 ∷ []) false ∷ new_packet 3 (some 0) (5 ∷ []) false ∷ []

requests-IsWellFormed : All IsWellFormed requests
requests-IsWellFormed = (
  new_packet-IsWellFormed 258 77 (7 ∷ 8 ∷ 9 ∷ []) false (omega arith) (omega arith) (omega arith),
  (new_packet-IsWellFormed 3 0 (5 ∷ []) false (omega arith) (omega arith) (omega arith), tt),
)

abbrev methods : MethodMetaMap
methods = (77, record { service = 3; method = 1 }) ∷ []

abbrev accepts : RpcMeta → List ℕ → Bool
accepts meta xs = true

-- The accepted socket of the other tests: the first packet and one byte of the second have come.
abbrev connection : Connection RpcSession
connection = record {
  parser = record { state = recv_header; packet = empty_packet };
  pool = pool;
  socket = server;
  end = new_session;
}

abbrev answers : List ReadAnswer
answers = got (take 25 (encode_all requests)) ∷ read_failed eagain ∷ []

abbrev to_come : List ℕ
to_come = drop 25 (encode_all requests)

answers-HasRoom : HasRoom answers pool read_list
unfolding new_packet encode encode_meta bytes_of writeable_size
answers-HasRoom = (omega arith, tt)

few_answers : length (arrived answers) ≤ 2 ^ 63
unfolding new_packet encode encode_meta bytes_of
few_answers = omega arith

stream_whole : [] ++ (arrived answers ++ to_come) ≡ encode_all requests
unfolding new_packet encode encode_meta bytes_of
stream_whole = refl

connection-IsAt :
    IsAt
      (1 ∷ 2 ∷ [])
      (on_session_packet accepts methods)
      connection
      requests
      (arrived answers ++ to_come)
connection-IsAt = (
  refl,
  refl,
  inl (record {
    old = empty_packet;
    xs = [];
    place = refl;
    held = ([], read_list-Rep);
    whole = stream_whole;
    few = omega arith;
    short = omega arith;
  }),
)

connection_in_refines_example :
    Handled (1 ∷ 2 ∷ []) (on_session_packet accepts methods) answers 0 connection requests to_come
connection_in_refines_example =
    connection_in_refines (1 ∷ 2 ∷ []) (on_session_packet accepts methods) answers 0 eagain
      connection requests to_come requests-IsWellFormed connection-IsAt answers-HasRoom few_answers
      refl refl refl

-- A channel that is called before and after it is connected, and gets a packet that no call waits for.
abbrev call : ℕ → ℕ → Call
call hash x = record {
  method_hash = hash;
  controller = 1;
  request = x ∷ [];
  response = 2;
  done = some 5;
}

abbrev events : List Event
events =
    calls 0 (call 77 4)
    ∷ calls 0 (call 78 5)
    ∷ writable
    ∷ arrives (new_packet 9 (some 0) [] true)
    ∷ calls 0 (call 77 6)
    ∷ []

abbrev replies : List ℕ → Bool
replies xs = true

events-AreSendable : AreSendable events
events-AreSendable = omega arith

events-connected : (after replies (new_channel 8) events).status ≡ connected
unfolding after step call_method call_in push_request_to_queue connect out_in on_connect on_packet
    respond find erase assign new_channel new_packet
events-connected = refl

abbrev sent : List ℕ
sent = encode_all (sends_of (history replies (new_channel 8) events))

call_pieces : joined (take 30 sent ∷ drop 30 sent ∷ []) ≡ sent
unfolding after history step call_method call_in push_request_to_queue connect out_in on_connect
    on_packet respond find erase assign new_channel new_packet encode encode_meta bytes_of
call_pieces = refl

call_pieces-IsPiece : All IsPiece (take 30 sent ∷ drop 30 sent ∷ [])
unfolding after history step call_method call_in push_request_to_queue connect out_in on_connect
    on_packet respond find erase assign new_channel new_packet encode encode_meta bytes_of
call_pieces-IsPiece = (omega arith, (omega arith, tt))

-- What the session does: the first and the third call's method, as the second's is not registered.
services_example :
    services accepts methods 0 0 (accepted replies (new_channel 8) events)
    ≡ serves (record { service = 3; method = 1 }) (4 ∷ []) (record { channel_guid = 0; guid = 1 })
      ∷ serves (record { service = 3; method = 1 }) (6 ∷ []) (record { channel_guid = 0; guid = 3 })
      ∷ []
unfolding after step call_method call_in push_request_to_queue connect out_in on_connect on_packet
    respond find erase assign new_channel new_packet get_service
services_example = refl

calls_served_example :
    (m : Parser) × (u : ByteQueue.State queue) × (session_arrivals queue accepts methods
        (take 30 sent ∷ drop 30 sent ∷ [])
        start
        new_session
      ≡ some (
        m,
        u,
        new_session,
        services accepts methods new_session.session_guid 0
            (accepted replies (new_channel 8) events),
      ))
    × ByteQueue.Holds queue u []
calls_served_example =
    calls_served replies accepts methods queue 8 events (take 30 sent ∷ drop 30 sent ∷ []) start
      new_session events-AreSendable events-connected call_pieces call_pieces-IsPiece
      ([], start-Rep)
