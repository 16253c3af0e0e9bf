-- ===== src/Net.antt =====
-- base/net.h and base/net.cc: what is done with file descriptors. The system is a list of answers,
-- one for each call in turn; an answer with an error sets `errno`. The numbers of the errors are
-- those of Linux. An `int` is its 32 bits. Logging is left out.
pub mod Calls
pub mod Script
pub mod Recv
pub mod Send
pub mod Overrun
use libserverkit.Base.{
  ℕ, ◌+◌, ◌-◌, ◌%◌, ◌^◌, Bool, true, false, Option, none, some, List, [], ◌∷◌, ◌++◌, length, ◌==◌,
  if◌then◌else◌, ◌||◌,
}
use libserverkit.BufferList.{
  Pool, BufferList, poke, peek, read_advance, write_advance, readable_size,
}

-- base/errcode.h, and the errors of the system that the code tests
abbrev pub k_ok : ℕ
k_ok = 0

abbrev pub k_error : ℕ
k_error = 2 ^ 32 - 1

abbrev pub eintr : ℕ
eintr = 4

abbrev pub eagain : ℕ
eagain = 11

abbrev pub ewouldblock : ℕ
ewouldblock = 11

abbrev pub einprogress : ℕ
einprogress = 115

abbrev pub is_io_try_again : ℕ → Bool
is_io_try_again err = (err == eagain) || (err == ewouldblock)

-- An answer of `read`: some bytes, the end of the stream, or an error.
pub data ReadAnswer : Type 0 where
  got : List ℕ → ReadAnswer
  ended : ReadAnswer
  read_failed : ℕ → ReadAnswer

-- The result of `Recv`, `*err`, `errno`, the buffers, and the answers that were not needed.
pub record Received : Type 0 where
  pub result : ℕ
  pub err : ℕ
  pub errno : ℕ
  pub pool : Pool
  pub buffer : BufferList
  pub rest : List ReadAnswer

-- The loop of `Recv`. `none` is a loop that goes on after the last answer.
unfoldable pub recv_loop : List ReadAnswer → ℕ → ℕ → Pool → BufferList → Option Received
recv_loop [] errno ret s l = none
recv_loop (got bytes ∷ rs) errno ret s l =
    let (s', l') = write_advance (length bytes) (poke s l bytes) l in
    recv_loop rs errno ((ret + length bytes) % 2 ^ 32) s' l'
recv_loop (read_failed e ∷ rs) errno ret s l =
    let again = recv_loop rs e ret s l in
    if is_io_try_again e
    then some (record { result = ret; err = e; errno = e; pool = s; buffer = l; rest = rs })
    else if e == eintr
    then again
    else some (record { result = k_error; err = e; errno = e; pool = s; buffer = l; rest = rs })
recv_loop (ended ∷ rs) errno ret s l =
    some (record { result = k_error; err = errno; errno = errno; pool = s; buffer = l; rest = rs })

-- `Recv`
unfoldable pub recv : List ReadAnswer → ℕ → Pool → BufferList → Option Received
unfolding recv_loop
recv rs errno s l = recv_loop rs errno 0 s l

-- An answer of `write`: a number of bytes taken, none taken, or an error.
pub data WriteAnswer : Type 0 where
  took : ℕ → WriteAnswer
  took_none : WriteAnswer
  write_failed : ℕ → WriteAnswer

-- The result of `Send`, with the bytes that the system took.
pub record Sent : Type 0 where
  pub result : ℕ
  pub err : ℕ
  pub errno : ℕ
  pub pool : Pool
  pub buffer : BufferList
  pub bytes : List ℕ
  pub rest : List WriteAnswer

-- What `Send` returns where it leaves its loop.
abbrev pub sent_with : ℕ → ℕ → ℕ → Pool → BufferList → List ℕ → List WriteAnswer → Sent
sent_with result err errno s l bytes rest = record {
  result = result;
  err = err;
  errno = errno;
  pool = s;
  buffer = l;
  bytes = bytes;
  rest = rest;
}

-- The loop of `Send`. The system is given `ReadableSize()` bytes from `ReadPoint()` on, and takes
-- some of them. With nothing to send no call is made.
unfoldable pub send_loop : List WriteAnswer → ℕ → ℕ → List ℕ → Pool → BufferList → Option Sent
send_loop [] errno ret bytes s l =
    if readable_size l == 0 then some (sent_with ret k_ok errno s l bytes []) else none
send_loop (took n ∷ rs) errno ret bytes s l =
    let (s', l') = read_advance n s l in
    let more = send_loop rs errno ((ret + n) % 2 ^ 32) (bytes ++ peek s l n) s' l' in
    if readable_size l == 0 then some (sent_with ret k_ok errno s l bytes (took n ∷ rs)) else more
send_loop (write_failed e ∷ rs) errno ret bytes s l =
    let again = send_loop rs e ret bytes s l in
    if readable_size l == 0
    then some (sent_with ret k_ok errno s l bytes (write_failed e ∷ rs))
    else if e == eintr
    then again
    else if is_io_try_again e
    then some (sent_with ret e e s l bytes rs)
    else some (sent_with k_error e e s l bytes rs)
send_loop (took_none ∷ rs) errno ret bytes s l =
    if readable_size l == 0
    then some (sent_with ret k_ok errno s l bytes (took_none ∷ rs))
    else some (sent_with k_error errno errno s l bytes rs)

-- `Send`
unfoldable pub send_buffer : List WriteAnswer → ℕ → Pool → BufferList → Option Sent
unfolding send_loop
send_buffer rs errno s l = send_loop rs errno 0 [] s l
