-- ===== src/Socket.antt =====
-- core/socket.h and core/socket.cc: a connection's buffers, status and write flag. What a method asks
-- of the poller, the system and the handler is a list of effects; what the handler writes while
-- `OnConnect` runs is an argument. Endpoints and logging are left out.
pub mod Reading
pub mod Out
pub mod Writing
pub mod Connecting
use libserverkit.Base.{
  ℕ, zero, suc, Bool, true, false, not, ◌&&◌, Option, none, some, List, [], ◌∷◌, ◌++◌, length, ◌==◌,
  if◌then◌else◌, ltb, ◌^◌, ◌>>=◌,
}
use libserverkit.BufferList.{Pool, BufferList, new_list, read, write, is_empty, destroy}
use libserverkit.Net.{
  k_ok, is_io_try_again, ReadAnswer, WriteAnswer, recv, Received, send_buffer, Sent,
}
use libserverkit.Net.Calls.{SysResult, connect_async}
use libserverkit.Rpc.Channel.{SocketStatus, init, connecting, connected, closed}

pub data SocketType : Type 0 where
  client_socket server_socket : SocketType

-- `handle` is 0 for `NULL`.
pub record Socket : Type 0 where
  pub fd : ℕ
  pub has_handler : Bool
  pub has_poller : Bool
  pub handle : ℕ
  pub is_writable : Bool
  pub read_list : BufferList
  pub write_list : BufferList
  pub status : SocketStatus
  pub socket_type : SocketType

-- The calls that go out of a socket.
pub data SocketEffect : Type 0 where
  on_connect : ℕ → SocketEffect
  on_read : SocketEffect
  on_write : SocketEffect
  on_error : ℕ → SocketEffect
  adds : (fd : ℕ) → SocketEffect
  dels : (handle : ℕ) → SocketEffect
  marks_writeable : (handle : ℕ) → SocketEffect
  closes : (fd : ℕ) → SocketEffect

-- The constructor of an accepted socket
unfoldable pub new_server_socket : ℕ → Bool → Pool → Pool × Socket
new_server_socket fd handler s =
    let (s', r) = new_list s in
    let (s'', w) = new_list s' in
    (
      s'',
      record {
        fd = fd;
        has_handler = handler;
        has_poller = false;
        handle = 0;
        is_writable = false;
        read_list = r;
        write_list = w;
        status = connected;
        socket_type = server_socket;
      },
    )

-- The constructor of a client's socket; `fd` is what `TcpSocket()` gives.
unfoldable pub new_client_socket : ℕ → Bool → Pool → Pool × Socket
unfolding new_server_socket
new_client_socket fd handler s =
    let (s', k) = new_server_socket fd handler s in
    (s', record k { has_poller = true; status = init; socket_type = client_socket })

-- `close`
unfoldable pub close : Socket → List SocketEffect
close k = dels k.handle ∷ closes k.fd ∷ []

-- `~Socket`, and the destructors of the two lists, each with `fuel` rounds of its loop
unfoldable pub destroy_socket : ℕ → Pool → Socket → Option (Pool × List SocketEffect)
unfolding close
destroy_socket fuel s k = do
  s' ← destroy fuel s k.write_list
  s'' ← destroy fuel s' k.read_list
  some (s'', dels k.handle ∷ close k)

-- `Connect` of a client's socket that is in its first state
abbrev pub first_connect : Option ℕ → Socket → Option (Socket × List SocketEffect)
first_connect none k = none
first_connect (some err) k =
    if err == k_ok
    then some (record k { status = connecting }, adds k.fd ∷ [])
    else some (record k { status = closed }, on_connect err ∷ [])

-- `Connect`, with the answers of the system. `none` is a connect that never returns, or the assertion
-- that fails on an accepted socket.
abbrev pub connect_in : SocketStatus → List SysResult → Socket → Option (Socket × List SocketEffect)
connect_in init rs k = first_connect (connect_async rs) k
connect_in connecting rs k = some (k, [])
connect_in connected rs k = some (k, [])
connect_in closed rs k = some (k, [])

abbrev pub connect_of : SocketType → List SysResult → Socket → Option (Socket × List SocketEffect)
connect_of client_socket rs k = connect_in k.status rs k
connect_of server_socket rs k = none

unfoldable pub socket_connect : List SysResult → Socket → Option (Socket × List SocketEffect)
socket_connect rs k = connect_of k.socket_type rs k

-- `SetPoller`, with the handle that `Add` gives. `none` is its assertion.
unfoldable pub set_poller : ℕ → Socket → Option (Socket × List SocketEffect)
set_poller handle k =
    if k.has_poller
    then none
    else some (record k { has_poller = true; handle = handle }, adds k.fd ∷ [])

-- `Write`
unfoldable pub socket_write : List ℕ → Pool → Socket → Option (Pool × Socket × List SocketEffect)
socket_write from s k = do
  (n, s', l) ← write from s k.write_list
  some (
    s',
    record k { write_list = l; is_writable = true },
    if k.is_writable then [] else marks_writeable k.handle ∷ [],
  )

-- `Read`
unfoldable pub socket_read : ℕ → Pool → Socket → Option (List ℕ × ℕ × Pool × Socket)
socket_read n s k = do
  (out, count, s', l) ← read n s k.read_list
  some (out, count, s', record k { read_list = l })

-- What a method of the socket leaves: `ended` is a return from within its loop.
pub record SocketRun : Type 0 where
  pub pool : Pool
  pub socket : Socket
  pub effects : List SocketEffect
  pub ended : Bool

-- An error that is not "try again"
abbrev pub is_fatal : ℕ → Bool
is_fatal err = not (err == k_ok) && not (is_io_try_again err)

abbrev pub tell : Socket → SocketEffect → List SocketEffect
tell k e = if k.has_handler then e ∷ [] else []

-- The loop of `In`
unfoldable pub in_loop : ℕ → List ReadAnswer → ℕ → Pool → Socket → Option SocketRun
unfolding close
in_loop zero rs errno s k = none
in_loop (suc fuel) rs errno s k = elim (recv rs errno s k.read_list) [
  | none ↦ none
  | some r ↦
      let k' = record k { read_list = r.buffer } in
      let more = in_loop fuel r.rest r.errno r.pool k' in
      if is_fatal r.err
      then some (record {
        pool = r.pool;
        socket = k';
        effects = tell k (on_error r.err) ++ close k';
        ended = true;
      })
      else if is_io_try_again r.err
      then some (record { pool = r.pool; socket = k'; effects = []; ended = false })
      else more
]

-- After the loop of `In`
abbrev pub announce_read : SocketRun → SocketRun
announce_read r =
    if r.ended
    then r
    else if not (is_empty r.socket.read_list)
    then record r { effects = tell r.socket on_read }
    else r

abbrev pub unchanged : Pool → Socket → SocketRun
unchanged s k = record { pool = s; socket = k; effects = []; ended = true }

-- `In`, by the status, with the answers of `read` and what `errno` was. Each round takes an answer.
unfoldable pub in_status : SocketStatus → List ReadAnswer → ℕ → Pool → Socket → Option SocketRun
unfolding in_loop
in_status connected rs errno s k = do
  r ← in_loop (suc (length rs)) rs errno s k
  some (announce_read r)
in_status init rs errno s k = some (unchanged s k)
in_status connecting rs errno s k = some (unchanged s k)
in_status closed rs errno s k = some (unchanged s k)

unfoldable pub socket_in : List ReadAnswer → ℕ → Pool → Socket → Option SocketRun
unfolding in_status
socket_in rs errno s k = in_status k.status rs errno s k

-- The loop of `Out`: `n` is the last result of `Send`, `bytes` what the system took.
pub record OutRun : Type 0 where
  pub run : SocketRun
  pub n : ℕ
  pub bytes : List ℕ

abbrev pub out_run : Pool → Socket → List SocketEffect → Bool → ℕ → List ℕ → OutRun
out_run s k es ended n bytes = record {
  run = record { pool = s; socket = k; effects = es; ended = ended };
  n = n;
  bytes = bytes;
}

unfoldable pub out_loop : ℕ → List WriteAnswer → ℕ → ℕ → List ℕ → Pool → Socket → Option OutRun
unfolding close
out_loop zero rs errno n bytes s k = none
out_loop (suc fuel) rs errno n bytes s k =
    let sending : Option OutRun = elim (send_buffer rs errno s k.write_list) [
      | none ↦ none
      | some r ↦
          let k' = record k { write_list = r.buffer } in
          let more = out_loop fuel r.rest r.errno r.result (bytes ++ r.bytes) r.pool k' in
          if is_fatal r.err
          then some (
              out_run r.pool k' (tell k (on_error r.err) ++ close k') true r.result
                (bytes ++ r.bytes))
          else if is_io_try_again r.err
          then some (out_run r.pool k' [] false r.result (bytes ++ r.bytes))
          else more
    ] in
    if is_empty k.write_list
    then some (out_run s (record k { is_writable = false }) [] false n bytes)
    else sending

-- An `int` above 0
abbrev pub is_positive : ℕ → Bool
is_positive n = not (n == 0) && ltb n (2 ^ 31)

-- After the loop of `Out`
abbrev pub announce_write : OutRun → OutRun
announce_write r =
    if r.run.ended
    then r
    else if is_positive r.n
    then record r { run = record r.run { effects = tell r.run.socket on_write } }
    else r

-- `Out` of a connected socket. `n` is what the variable `n` holds before it is set.
unfoldable pub out_connected : ℕ → List WriteAnswer → ℕ → Pool → Socket → Option OutRun
unfolding out_loop
out_connected n rs errno s k = do
  r ← out_loop (suc (suc (length rs))) rs errno n [] s k
  some (announce_write r)

-- What a handler writes in `OnConnect`, call after call.
unfoldable pub write_all :
    List (List ℕ) → Pool → Socket → Option (Pool × Socket × List SocketEffect)
unfolding socket_write
write_all [] s k = some (s, k, [])
write_all (from ∷ more) s k = do
  (s', k', es) ← socket_write from s k
  (s'', k'', fs) ← write_all more s' k'
  some (s'', k'', es ++ fs)

abbrev pub before : List SocketEffect → OutRun → OutRun
before es r = record r { run = record r.run { effects = es ++ r.run.effects } }

-- `Out`, by the status.
unfoldable pub out_status :
    SocketStatus → List (List ℕ) → ℕ → List WriteAnswer → ℕ → Pool → Socket → Option OutRun
unfolding out_connected write_all
out_status connecting writes n rs errno s k = do
  (s', k', es) ← write_all writes s (record k { status = connected })
  r ← out_connected n rs errno s' k'
  some (before (on_connect k_ok ∷ es) r)
out_status connected writes n rs errno s k = out_connected n rs errno s k
out_status init writes n rs errno s k = some (record { run = unchanged s k; n = n; bytes = [] })
out_status closed writes n rs errno s k = some (record { run = unchanged s k; n = n; bytes = [] })

unfoldable pub socket_out : List (List ℕ) → ℕ → List WriteAnswer → ℕ → Pool → Socket → Option OutRun
unfolding out_status
socket_out writes n rs errno s k = out_status k.status writes n rs errno s k
