-- ===== src/Socket/Reading.antt =====
-- `In`: what comes is put behind the bytes that were read before, and the handler is told.
use libserverkit.Base.{
  ℕ, suc, ◌+◌, ◌<◌, ◌≡◌, refl, ap, subst, sym, ◌∙◌, Bool, true, false, not, inl, inr, some, List,
  [], ◌∷◌, ◌++◌, length, ◌==◌, if◌then◌else◌, ◌>>=◌, has, Bool-cases,
}
use libserverkit.BufferList.{Pool, BufferList, size_mod, is_empty}
use libserverkit.BufferList.Rep.{Rep, readable_size-length}
use libserverkit.Net.{ReadAnswer, Received, recv, k_ok, is_io_try_again, eagain, ended, got}
use libserverkit.Net.Script.{arrived, verdict, HasRoom}
use libserverkit.Net.Recv.{recv_refines}
use libserverkit.Rpc.Channel.{connected}
use libserverkit.Socket.{
  Socket, SocketEffect, on_read, on_error, SocketRun, socket_in, in_status, in_loop, tell, close,
  announce_read,
}

-- What `In` asks for, where the list then holds `xs` and `Recv` gave the error `e`.
abbrev pub effects_of : Socket → List ℕ → ℕ → List SocketEffect
effects_of k xs e =
    if is_io_try_again e
    then (if length xs == 0 then [] else tell k on_read)
    else tell k (on_error e) ++ close k

-- One round of the loop.
in_loop-some :
    (fuel : ℕ) (rs : List ReadAnswer) (errno : ℕ) (s : Pool) (k : Socket) (r : Received) (e : ℕ)
    → recv rs errno s k.read_list ≡ some r
    → r.err ≡ e
    → (e == k_ok) ≡ false
    → in_loop (suc fuel) rs errno s k
      ≡ some (record {
        pool = r.pool;
        socket = record k { read_list = r.buffer };
        effects = if is_io_try_again e then [] else tell k (on_error e) ++ close k;
        ended = not (is_io_try_again e);
      })
unfolding in_loop
in_loop-some fuel rs errno s k r e h same ok = elim (Bool-cases (is_io_try_again e)) [
  | inl again ↦ rw (h, in_loop, same, ok, again) refl
  | inr other ↦ rw (h, in_loop, same, ok, other) refl
]

-- The run of `In` where `Recv` gives `r` with the error `e`.
abbrev end_of : Socket → Received → ℕ → SocketRun
end_of k r e = announce_read (record {
  pool = r.pool;
  socket = record k { read_list = r.buffer };
  effects = if is_io_try_again e then [] else tell k (on_error e) ++ close k;
  ended = not (is_io_try_again e);
})

socket_in-some :
    (rs : List ReadAnswer) (errno : ℕ) (s : Pool) (k : Socket) (r : Received) (e : ℕ)
    → k.status ≡ connected
    → recv rs errno s k.read_list ≡ some r
    → r.err ≡ e
    → (e == k_ok) ≡ false
    → socket_in rs errno s k ≡ some (end_of k r e)
unfolding socket_in in_status
socket_in-some rs errno s k r e st h same ok =
    ap (λ status. in_status status rs errno s k) st
    ∙ ap (λ run. do m ← run; some (announce_read m))
        (in_loop-some (length rs) rs errno s k r e h same ok)

end_of-effects :
    (k : Socket) (r : Received) (e : ℕ) (others qs xs : List ℕ)
    → Rep r.pool r.buffer others qs xs
    → ((end_of k r e).effects ≡ effects_of k xs e)
      × ((end_of k r e).socket ≡ record k { read_list = r.buffer })
      × ((end_of k r e).pool ≡ r.pool)
unfolding is_empty
end_of-effects k r e others qs xs rep =
    let size = readable_size-length r.pool r.buffer others qs xs rep in
    elim (Bool-cases (is_io_try_again e)) [
      | inl again ↦ elim (Bool-cases (length xs == 0)) [
        | inl none_read ↦ rw (again, size, none_read) (refl, refl, refl)
        | inr some_read ↦ rw (again, size, some_read) (refl, refl, refl)
      ]
      | inr other ↦ rw other (refl, refl, refl)
    ]

-- For a connected socket whose read list holds `xs`, and answers of the system that fit into the
-- buffers, are fewer than 2^64 bytes with `xs`, and come to an end with an error that is not 0: `In`
-- returns, and of the socket it changes the read list alone, which then holds `xs` and the bytes that
-- came, in order; the status is as before. Where the error says "try again" `In` calls `OnRead` if the
-- list is not empty, and otherwise `OnError`, and closes the descriptor. No buffer of another owner is
-- changed.
pub socket_in_refines :
    (rs : List ReadAnswer) (errno : ℕ) (s : Pool) (k : Socket) (others ps xs : List ℕ)
    (failed : Bool) (e : ℕ)
    → k.status ≡ connected
    → Rep s k.read_list others ps xs
    → HasRoom rs s k.read_list
    → length xs + length (arrived rs) < size_mod
    → verdict rs errno ≡ some (failed, e)
    → (e == k_ok) ≡ false
    → (r : SocketRun) × (l : BufferList) × (qs : List ℕ) × (socket_in rs errno s k ≡ some r)
      × (r.socket ≡ record k { read_list = l })
      × (r.effects ≡ effects_of k (xs ++ arrived rs) e)
      × Rep r.pool l others qs (xs ++ arrived rs)
      × ((a : ℕ) → has a others ≡ true → r.pool.cell a ≡ s.cell a)
socket_in_refines rs errno s k others ps xs failed e st rep room small v ok =
    let (r, qs, h, same, result, rep', kept) =
      recv_refines rs errno s k.read_list others ps xs failed e rep room small v in
    let (effects, socket, pool) = end_of-effects k r e others qs (xs ++ arrived rs) rep' in
    (
      end_of k r e,
      r.buffer,
      qs,
      socket_in-some rs errno s k r e st h same ok,
      socket,
      effects,
      subst (λ t. Rep t r.buffer others qs (xs ++ arrived rs)) (sym pool) rep',
      λ a i. ap (λ (t : Pool). t.cell a) pool ∙ kept a i,
    )

-- The peer sends some bytes and closes, and `errno` is still that of an earlier call that had nothing
-- to read: `In` takes the end of the stream for "nothing more for now", so that it closes nothing and
-- tells the handler of no error.
pub socket_in_end_lost :
    (bytes : List ℕ) (s : Pool) (k : Socket) (others ps xs : List ℕ)
    → k.status ≡ connected
    → k.has_handler ≡ true
    → Rep s k.read_list others ps xs
    → HasRoom (got bytes ∷ ended ∷ []) s k.read_list
    → length xs + length (bytes ++ []) < size_mod
    → (length (xs ++ (bytes ++ [])) == 0) ≡ false
    → (r : SocketRun) × (socket_in (got bytes ∷ ended ∷ []) eagain s k ≡ some r)
      × (r.effects ≡ on_read ∷ [])
      × (r.socket.status ≡ connected)
socket_in_end_lost bytes s k others ps xs st handled rep room small some_read =
    let (r, l, qs, h, socket, effects, _, _) =
      socket_in_refines (got bytes ∷ ended ∷ []) eagain s k others ps xs true eagain st rep room
        small refl refl in
    (r, h, effects ∙ rw (some_read, handled) refl, ap (λ (t : Socket). t.status) socket ∙ st)
