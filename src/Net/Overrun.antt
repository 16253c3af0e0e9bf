-- ===== src/Net/Overrun.antt =====
-- `Send` gives the system all that is held, though `ReadPoint()` leads into one buffer.
use libserverkit.Base.{
  ℕ, ◌+◌, ◌%◌, ◌^◌, ◌<◌, ◌≡◌, refl, false, some, List, [], ◌∷◌, length, ◌==◌, arith, ==_ne,
}
use libserverkit.Buffer.{buffer_size}
use libserverkit.BufferList.{
  Pool, BufferList, size_mod, add_size, peek, read_advance, readable_size, current_read_size,
}
use libserverkit.BufferList.Rep.{Rep, readable_size-length, current_read_size_more}
use libserverkit.Net.{took, write_failed, Sent, sent_with, send_buffer, send_loop, eagain}

abbrev moved : BufferList → ℕ → BufferList
moved l n = record l { read_inx = l.read_inx + n; read_size = add_size l.read_size n }

-- More than the buffer at `ReadPoint()` has left: the read position moves past its end, and stays.
read_advance-past :
    (n : ℕ) (s : Pool) (l : BufferList)
    → buffer_size < l.read_inx + n
    → l.read_inx + n < size_mod
    → read_advance n s l ≡ (s, moved l n)
unfolding read_advance
read_advance-past n s l over small = ground arith

-- While fewer than all the bytes are taken, some are left.
still_readable :
    (s : Pool) (l : BufferList) (others ps xs : List ℕ) (n : ℕ)
    → Rep s l others ps xs
    → n < length xs
    → (readable_size (moved l n) == 0) ≡ false
unfolding readable_size
still_readable s l others ps xs n r h = ==_ne _ _ (omega (arith, r.counted, r.small, r.read_small))

-- For a buffer list of two buffers or more, with fewer than 2^64 - 4096 bytes: where the system takes
-- more than the buffer at `ReadPoint()` has left, but not yet all that it was given, and then no more
-- for now, `Send` reports these bytes as sent, and what it leaves stands for no list of bytes.
pub send_past :
    (n errno : ℕ) (s : Pool) (l : BufferList) (others : List ℕ) (q : ℕ) (ps xs : List ℕ)
    → Rep s l others (q ∷ ps) xs
    → n < length xs
    → current_read_size l < n
    → length xs + buffer_size < size_mod
    → (r : Sent) × (send_buffer (took n ∷ write_failed eagain ∷ []) errno s l ≡ some r)
      × (r.result ≡ n % 2 ^ 32)
      × ((others' qs ys : List ℕ) → ¬ Rep r.pool r.buffer others' qs ys)
unfolding send_buffer send_loop
send_past n errno s l others q ps xs r more over small =
    let past = current_read_size_more s l others q ps xs r in
    let e₁ : (readable_size l == 0) ≡ false =
      ==_ne _ _ (omega (arith, readable_size-length s l others (q ∷ ps) xs r)) in
    let e₂ = still_readable s l others (q ∷ ps) xs n r more in
    (
      sent_with ((0 + n) % 2 ^ 32) eagain eagain s (moved l n) (peek s l n) [],
      rw
          (
            e₁,
            read_advance-past n s l (omega (arith, past, r.read_in)) (omega (arith, r.read_in)),
            e₂,
          )
          refl,
      omega arith,
      λ others' qs ys k. absurd (omega (arith, k.read_in, past, r.read_in)),
    )
