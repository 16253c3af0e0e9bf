-- ===== src/Tests/Sockets.antt =====
-- A socket on the connection's buffers, and a poller.
use libserverkit.Base.{ℕ, ◌≡◌, refl, true, false, some, List, [], ◌∷◌, ◌++◌, arith, has}
use libserverkit.BufferList.{BufferList, writeable_size}
use libserverkit.BufferList.Rep.{Rep}
use libserverkit.Net.{got, ended, eagain}
use libserverkit.Net.Script.{arrived, HasRoom}
use libserverkit.Rpc.Channel.{connected, init}
use libserverkit.Socket.{Socket, on_read, server_socket, client_socket, SocketRun, socket_in}
use libserverkit.Tests.Net.{
  pool, read_list, write_list, read_list-Rep, reads, reads-HasRoom, one_buffer,
}
use libserverkit.Socket.Reading.{socket_in_refines, socket_in_end_lost, effects_of}

-- An accepted socket with a byte to send
abbrev pub server : Socket
server = record {
  fd = 5;
  has_handler = true;
  has_poller = true;
  handle = 9;
  is_writable = true;
  read_list = read_list;
  write_list = write_list;
  status = connected;
  socket_type = server_socket;
}

-- A client's socket with nothing to send
abbrev pub client : Socket
client = record server {
  handle = 0;
  is_writable = false;
  write_list = read_list;
  read_list = write_list;
  status = init;
  socket_type = client_socket;
}

socket_in_refines_example :
    (r : SocketRun) × (l : BufferList) × (qs : List ℕ) × (socket_in reads 0 pool server ≡ some r)
    × (r.socket ≡ record server { read_list = l })
    × (r.effects ≡ effects_of server ([] ++ arrived reads) eagain)
    × Rep r.pool l (1 ∷ 2 ∷ []) qs ([] ++ arrived reads)
    × ((a : ℕ) → has a (1 ∷ 2 ∷ []) ≡ true → r.pool.cell a ≡ pool.cell a)
socket_in_refines_example =
    socket_in_refines reads 0 pool server (1 ∷ 2 ∷ []) [] [] false eagain refl read_list-Rep
      reads-HasRoom (omega arith) refl refl

closing-HasRoom : HasRoom (got (7 ∷ []) ∷ ended ∷ []) pool read_list
unfolding writeable_size
closing-HasRoom = (omega arith, tt)

socket_in_end_lost_example :
    (r : SocketRun) × (socket_in (got (7 ∷ []) ∷ ended ∷ []) eagain pool server ≡ some r)
    × (r.effects ≡ on_read ∷ [])
    × (r.socket.status ≡ connected)
socket_in_end_lost_example =
    socket_in_end_lost (7 ∷ []) pool server (1 ∷ 2 ∷ []) [] [] refl refl read_list-Rep
      closing-HasRoom (omega arith) refl

-- The same socket with three bytes to send
abbrev sender : Socket
sender = record server { write_list = one_buffer }
