-- ===== src/Tests/Rpc.antt =====
-- The packet parser over a buffer list in a new pool, and a channel with two calls.
use libserverkit.Base.{
  ℕ, ◌+◌, All, ◌^◌, ◌<◌, ◌≡◌, ◌≢◌, refl, ap, sym, ◌∙◌, Bool, true, false, some, List, [], none, ◌∷◌,
  ◌++◌, ◌>>=◌, arith, length, take, drop, append-nil, IsNodup,
}
use libserverkit.ByteQueue.{ByteQueue}
use libserverkit.ByteQueue.OfBufferList.{of_buffer_list}
use libserverkit.Rpc.Packet.{Packet, empty_packet, new_packet, encode, encode_meta}
use libserverkit.Rpc.Packet.Laws.{IsWellFormed, Fits, new_packet-IsWellFormed}
use libserverkit.Rpc.Parser.{recv_header, recv_packet, send_packet}
use libserverkit.Rpc.Parser.Receive.{received, recv_packet_short}
use libserverkit.Rpc.Parser.Split.{send_recv}
use libserverkit.Rpc.Channel.{
  Call, new_channel, find, erase, assign, on_connect, respond, runs, fills, on_packet, call_method,
  closed, init, next_guid,
}
use libserverkit.Rpc.Channel.History.{
  Event, calls, writable, arrives, history, after, runs_of, sends_of, step,
}
use libserverkit.Rpc.Channel.Once.{runs_once}
use libserverkit.Rpc.Channel.Order.{sends_in_order, all_made}
use libserverkit.Rpc.Channel.Reply.{reached, reply_completes}
use libserverkit.Rpc.Session.{MethodMetaMap, get_service, register}
use libserverkit.Rpc.Session.Register.{IsFree, hashes}
use libserverkit.Rpc.Session.Methods.{methods_in, register_comm}
use libserverkit.Tests.Buffers.{start, start-Rep}

abbrev queue : ByteQueue
queue = of_buffer_list []

abbrev packet : Packet
packet = record {
  magic = 0x2B;
  guid = 258;
  method_id = 77;
  size = 3;
  content = 7 ∷ 8 ∷ 9 ∷ [];
  recv_done = false;
}

packet-IsWellFormed : IsWellFormed packet
unfolding new_packet
packet-IsWellFormed =
    new_packet-IsWellFormed 258 77 (7 ∷ 8 ∷ 9 ∷ []) false (omega arith) (omega arith) (omega arith)

-- A state of the queue with the bytes of a list.
abbrev Filled : List ℕ → Type 0
Filled xs = (t : ByteQueue.State queue) × ByteQueue.Holds queue t xs

fill : (xs : List ℕ) → length xs < 2 ^ 64 → Filled xs
fill xs h = let (t, e, r) = queue.write_lem xs start [] ([], start-Rep) (omega arith) in (t, r)

length-packet : length (encode packet) ≡ 24
unfolding encode libserverkit.Rpc.Packet.bytes_of
length-packet = refl

whole : Filled (encode packet ++ [])
whole =
    fill (encode packet ++ [])
      (omega (arith, length-packet, ap length (append-nil (encode packet))))

send_recv_example :
    (t u : ByteQueue.State queue) × (send_packet queue packet start ≡ some t)
    × (recv_packet queue (record { state = recv_header; packet = empty_packet }) t
        ≡ some (true, received packet, u))
    × ByteQueue.Holds queue u []
send_recv_example = send_recv queue packet empty_packet start packet-IsWellFormed ([], start-Rep)

-- The packet in two pieces: five bytes, then the others.
abbrev first_piece : List ℕ
first_piece = take 5 (encode packet)

abbrev second_piece : List ℕ
second_piece = drop 5 (encode packet)

length-first_piece : length first_piece ≡ 5
unfolding encode libserverkit.Rpc.Packet.bytes_of
length-first_piece = refl

length-second_piece : length second_piece ≡ 19
unfolding encode libserverkit.Rpc.Packet.bytes_of
length-second_piece = refl

pieces : first_piece ++ second_piece ≡ encode packet ++ []
unfolding encode libserverkit.Rpc.Packet.bytes_of
pieces = refl

begun : Filled first_piece
begun = fill first_piece (omega (arith, length-first_piece))

recv_packet_short_example :
    recv_packet queue (record { state = recv_header; packet = empty_packet }) begun.0
    ≡ some (false, record { state = recv_header; packet = empty_packet }, begun.0)
recv_packet_short_example =
    recv_packet_short queue empty_packet begun.0 first_piece begun.1
      (omega (arith, length-first_piece))

two_left : Filled (encode_meta packet ++ 7 ∷ 8 ∷ [])
unfolding encode_meta libserverkit.Rpc.Packet.bytes_of
two_left = fill (encode_meta packet ++ 7 ∷ 8 ∷ []) (omega arith)

abbrev stranger : Packet
stranger = record packet { magic = 5 }

stranger-Fits : Fits stranger
stranger-Fits = omega arith

odd : Filled (encode_meta stranger ++ 7 ∷ 8 ∷ [])
unfolding encode_meta libserverkit.Rpc.Packet.bytes_of
odd = fill (encode_meta stranger ++ 7 ∷ 8 ∷ []) (omega arith)

-- Two calls, the connection, then the first reply twice.
abbrev call : ℕ → Call
call d = record { method_hash = 77; controller = 1; request = d ∷ []; response = 5; done = some d }

abbrev reply : ℕ → Packet
reply k = record {
  magic = 0x2B;
  guid = k;
  method_id = 0;
  size = 1;
  content = 9 ∷ [];
  recv_done = true;
}

abbrev parses : List ℕ → Bool
parses xs = true

abbrev events : List Event
events =
    calls 0 (call 30) ∷ calls 0 (call 31) ∷ writable ∷ arrives (reply 1) ∷ arrives (reply 1) ∷ []

runs_once_run : runs_of (history parses (new_channel 6) events) ≡ 1 ∷ []
unfolding history step new_channel call_method on_packet find erase assign on_connect respond
runs_once_run = refl

runs_once_example : IsNodup (runs_of (history parses (new_channel 6) events))
runs_once_example = runs_once parses 6 events (omega arith)

sends_in_order_example :
    sends_of (history parses (new_channel 6) events)
      ++ (after parses (new_channel 6) events).packet_queue
    ≡ all_made parses (new_channel 6) events
sends_in_order_example = sends_in_order parses 6 events

reached_new : reached parses 6 [] ≡ new_channel 6
unfolding after
reached_new = refl

reached_status : (reached parses 6 []).status ≡ init
unfolding after new_channel
reached_status = refl

reached_guid : next_guid (reached parses 6 []) ≡ 1
unfolding after new_channel
reached_guid = refl

reply_completes_example :
    (on_packet parses
      (after parses (call_method 0 (reached parses 6 []) (call 30)).0 (writable ∷ []))
      (reply 1)).1
    ≡ fills 5 (9 ∷ []) ∷ runs 1 30 ∷ []
reply_completes_example =
    reply_completes parses 6 0 30 [] (writable ∷ []) (call 30) (reply 1) (omega arith)
      (λ e. init_open (sym reached_status ∙ e)) refl tt (sym reached_guid) refl refl
  where
    init_open : init ≢ closed
    init_open = λ e. cc

-- The methods of one service of two methods.
abbrev methods : MethodMetaMap
methods = (78, record { service = 3; method = 2 }) ∷ (77, record { service = 3; method = 1 }) ∷ []

abbrev name_hash : ℕ → ℕ
name_hash k = 76 + k

register_run : register name_hash 3 (1 ∷ 2 ∷ []) [] ≡ some methods
unfolding register get_service
register_run = refl

none_yet : All (IsFree name_hash 3 []) (hashes name_hash 3 (1 ∷ 2 ∷ []))
unfolding get_service
none_yet = (refl, (refl, tt))

-- Two services of two methods and of one method.
abbrev plus_ten : ℕ → ℕ
plus_ten x = x + 10

register_comm_example :
    methods_in (register plus_ten 3 (1 ∷ 2 ∷ []) [] >>= register plus_ten 4 (5 ∷ []))
    ≡ methods_in (register plus_ten 4 (5 ∷ []) [] >>= register plus_ten 3 (1 ∷ 2 ∷ []))
register_comm_example = register_comm plus_ten 3 4 (1 ∷ 2 ∷ []) (5 ∷ []) []

-- Both orders pass the assertions; with a method in common neither does.
registers_both :
    (register plus_ten 3 (1 ∷ 2 ∷ []) [] >>= register plus_ten 4 (5 ∷ []))
    ≡ some (
        (15, record { service = 4; method = 5 })
        ∷ (12, record { service = 3; method = 2 })
        ∷ (11, record { service = 3; method = 1 })
        ∷ [])
unfolding register get_service
registers_both = refl

registers_neither : (register plus_ten 3 (1 ∷ 2 ∷ []) [] >>= register plus_ten 4 (2 ∷ [])) ≡ none
unfolding register get_service
registers_neither = refl
