-- ===== src/Socket/Writing.antt =====
-- `Write` and `Out`: the bytes that wait, and the flag that says so.
use libserverkit.Base.{
  ℕ, suc, ◌+◌, ◌%◌, ◌^◌, ◌<◌, ◌≡◌, refl, ap, ◌∙◌, Bool, true, false, inl, inr, Option, some, List,
  [], ◌∷◌, ◌++◌, length, ◌==◌, if◌then◌else◌, ◌>>=◌, has, Bool-cases,
}
use libserverkit.BufferList.{Pool, BufferList, size_mod, is_empty}
use libserverkit.BufferList.Rep.{Rep, readable_size-length}
use libserverkit.BufferList.WriteLoop.{write_refines}
use libserverkit.Net.{WriteAnswer, Sent}
use libserverkit.Rpc.Channel.{connected}
use libserverkit.Socket.{
  Socket, on_write, on_error, marks_writeable, OutRun, out_run, socket_write, socket_out,
  out_status, out_connected, out_loop, is_fatal, tell, close, announce_write, is_positive,
}
use libserverkit.Socket.Out.{out_loop-empty}

-- For a socket whose write list holds `xs`, with fewer than 2^64 bytes in all: `Write` takes the bytes
-- and puts them behind `xs`. The write flag is set then, and the poller is told just where it was not
-- set before; of the socket nothing else changes, and no buffer of another owner.
pub socket_write_refines :
    (src : List ℕ) (s : Pool) (k : Socket) (others ps xs : List ℕ)
    → Rep s k.write_list others ps xs
    → length xs + length src < size_mod
    → (t : Pool) × (l : BufferList) × (qs : List ℕ) × (socket_write src s k
        ≡ some (
          t,
          record k { write_list = l; is_writable = true },
          if k.is_writable then [] else marks_writeable k.handle ∷ [],
        ))
      × Rep t l others qs (xs ++ src)
      × ((a : ℕ) → has a others ≡ true → t.cell a ≡ s.cell a)
unfolding socket_write
socket_write_refines src s k others ps xs r h =
    let (t, l, qs, e, r', kept) = write_refines src s k.write_list others ps xs r h in
    (t, l, qs, rw e refl, r', kept)

-- How `Out` ends with `left` still to be sent: all is sent and the flag is cleared, the system takes
-- no more for now, or the connection failed and the descriptor is closed.
pub data Outcome (k : Socket) (o : OutRun) (left : List ℕ) : Type 0 where
  flushed :
      left ≡ []
      → o.run.socket.is_writable ≡ false
      → o.run.effects ≡ (if is_positive (length o.bytes % 2 ^ 32) then tell k on_write else [])
      → Outcome k o left
  waits :
      o.run.socket.is_writable ≡ k.is_writable
      → o.run.effects ≡ (if is_positive (length o.bytes % 2 ^ 32) then tell k on_write else [])
      → Outcome k o left
  fails :
      (err : ℕ)
      → is_fatal err ≡ true
      → o.run.socket.is_writable ≡ k.is_writable
      → o.run.effects ≡ tell k (on_error err) ++ close k
      → Outcome k o left

-- What `Out` leaves, on the buffers of `s`.
pub record Outs (run : Option OutRun) (s : Pool) (k : Socket) (others xs : List ℕ) : Type 0 where
  pub final : OutRun
  pub list : BufferList
  pub flag : Bool
  pub chain : List ℕ
  pub left : List ℕ
  pub returns : run ≡ some final
  pub socket_is : final.run.socket ≡ record k { write_list = list; is_writable = flag }
  pub split : xs ≡ final.bytes ++ left
  pub rep : Rep final.run.pool list others chain left
  pub outcome : Outcome k final left
  pub kept : (a : ℕ) → has a others ≡ true → final.run.pool.cell a ≡ s.cell a

not_empty :
    (s : Pool) (l : BufferList) (others ps xs : List ℕ)
    → Rep s l others ps xs
    → is_empty l ≡ (length xs == 0)
unfolding is_empty
not_empty s l others ps xs r = ap (λ m. m == 0) (readable_size-length s l others ps xs r)

announce_write-spoken :
    (s : Pool) (k : Socket) (n : ℕ) (bytes : List ℕ)
    → announce_write (out_run s k [] false n bytes)
      ≡ out_run s k (if is_positive n then tell k on_write else []) false n bytes
announce_write-spoken s k n bytes = elim (Bool-cases (is_positive n)) [
  | inl some_sent ↦ rw some_sent refl
  | inr none_sent ↦ rw none_sent refl
]

-- What `Out` does where its loop ends with `o`.
out_connected-some :
    (n : ℕ) (rs : List WriteAnswer) (errno : ℕ) (s : Pool) (k : Socket) (o : OutRun)
    → out_loop (suc (suc (length rs))) rs errno n [] s k ≡ some o
    → out_connected n rs errno s k ≡ some (announce_write o)
unfolding out_connected
out_connected-some n rs errno s k o h = ap (λ run. do m ← run; some (announce_write m)) h

-- The socket after `Send` left `r`.
abbrev sent_socket : Socket → Sent → Bool → Socket
sent_socket k r flag = record k { write_list = r.buffer; is_writable = flag }

-- For a connected socket with nothing to write, `Out` clears the write flag, and calls `OnWrite` where
-- the variable `n`, which nothing was assigned to, happens to be positive.
pub socket_out_empty :
    (writes : List (List ℕ)) (n : ℕ) (rs : List WriteAnswer) (errno : ℕ) (s : Pool) (k : Socket)
    (others ps : List ℕ)
    → k.status ≡ connected
    → Rep s k.write_list others ps []
    → socket_out writes n rs errno s k
      ≡ some (
          out_run s
            (record k { is_writable = false })
            (if is_positive n then tell k on_write else [])
            false
            n
            [])
unfolding socket_out out_status
socket_out_empty writes n rs errno s k others ps st rep =
    let empty = not_empty s k.write_list others ps [] rep in
    ap (λ status. out_status status writes n rs errno s k) st
    ∙ out_connected-some n rs errno s k _ (out_loop-empty (suc (length rs)) rs errno n [] s k empty)
    ∙ ap some (announce_write-spoken s (record k { is_writable = false }) n [])
