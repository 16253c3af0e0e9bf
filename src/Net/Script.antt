-- ===== src/Net/Script.antt =====
-- What a list of the system's answers amounts to, whatever is done with it.
use libserverkit.Base.{
  ℕ, ◌-◌, ◌≤◌, ◌≡◌, Bool, true, false, Option, none, some, List, [], ◌∷◌, ◌++◌, length, ◌==◌,
  if◌then◌else◌,
}
use libserverkit.BufferList.{
  Pool, BufferList, poke, read_advance, write_advance, writeable_size, current_read_size,
}
use libserverkit.Net.{
  ReadAnswer, got, ended, read_failed, WriteAnswer, took, took_none, write_failed, eintr,
  is_io_try_again,
}

-- The bytes that come before the stream stops for now, ends or fails.
abbrev pub arrived : List ReadAnswer → List ℕ
arrived [] = []
arrived (got bytes ∷ rs) = bytes ++ arrived rs
arrived (read_failed e ∷ rs) =
    if is_io_try_again e then [] else if e == eintr then arrived rs else []
arrived (ended ∷ rs) = []

-- Whether it fails, and the number that `*err` is given; `none` where the answers do not tell.
abbrev pub verdict : List ReadAnswer → ℕ → Option (Bool × ℕ)
verdict [] errno = none
verdict (got bytes ∷ rs) errno = verdict rs errno
verdict (read_failed e ∷ rs) errno =
    if is_io_try_again e
    then some (false, e)
    else if e == eintr
    then verdict rs e
    else some (true, e)
verdict (ended ∷ rs) errno = some (true, errno)

-- A system that reads gives no more bytes than it was asked for.
abbrev pub HasRoom : List ReadAnswer → Pool → BufferList → Type 0
HasRoom [] s l = Unit
HasRoom (got bytes ∷ rs) s l =
    (length bytes ≤ writeable_size l)
    × HasRoom rs (write_advance (length bytes) (poke s l bytes) l).0
        (write_advance (length bytes) (poke s l bytes) l).1
HasRoom (read_failed e ∷ rs) s l = HasRoom rs s l
HasRoom (ended ∷ rs) s l = Unit

-- A system that writes takes no more bytes than it is given: with `n` bytes held, `Send` gives it
-- these.
abbrev pub AtMost : List WriteAnswer → ℕ → Type 0
AtMost [] n = Unit
AtMost (took k ∷ rs) n = (k ≤ n) × AtMost rs (n - k)
AtMost (write_failed e ∷ rs) n = AtMost rs n
AtMost (took_none ∷ rs) n = AtMost rs n

-- No more bytes are taken than the buffer at `ReadPoint()` holds.
abbrev pub InBlock : List WriteAnswer → Pool → BufferList → Type 0
InBlock [] s l = Unit
InBlock (took n ∷ rs) s l =
    (n ≤ current_read_size l) × InBlock rs (read_advance n s l).0 (read_advance n s l).1
InBlock (write_failed e ∷ rs) s l = InBlock rs s l
InBlock (took_none ∷ rs) s l = InBlock rs s l

-- A system that writes takes a byte at least where it does not fail, and its errors are not 0.
abbrev pub IsFair : List WriteAnswer → Type 0
IsFair [] = Unit
IsFair (took n ∷ rs) = IsFair rs
IsFair (write_failed e ∷ rs) = ((e == 0) ≡ false) × IsFair rs
IsFair (took_none ∷ rs) = ⊥
