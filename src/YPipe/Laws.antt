-- ===== src/YPipe/Laws.antt =====
-- A pipe that only one thread uses: what is written, flushed and read.
use libserverkit.Base.{
  ℕ, ◌+◌, ◌-◌, ◌≤◌, ◌≡◌, refl, Bool, true, false, none, some, update, arith, ==_self, ==_ne,
}
use libserverkit.YPipe.{YPipe, write, un_write, check_read, read, probe}

-- An incomplete item that was written behind what may be flushed is taken back by `UnWrite`, and the
-- pipe is as before but for the slot behind its back.
pub un_write-write :
    (v : ℕ) (p : YPipe)
    → p.f ≤ p.back
    → un_write (write v true p) ≡ (record p { values = update p.values p.back v }, some v)
unfolding un_write write
un_write-write v p h = rw (==_ne p.f (p.back + 1) (omega arith), back, ==_self)
  where
    back : p.back + 1 - 1 ≡ p.back
    back = omega arith

-- A complete item cannot be taken back.
pub un_write-write_complete :
    (v : ℕ) (p : YPipe) → un_write (write v false p) ≡ (write v false p, none)
unfolding un_write write
un_write-write_complete v p = rw ==_self

-- Where there is something to read, `Probe` tests the item that `Read` then takes.
pub probe-read :
    (fn : ℕ → Bool) (p : YPipe)
    → (check_read p).1 ≡ true
    → (v : ℕ) × ((read p).1 ≡ some v) × ((probe fn p).1 ≡ fn v)
unfolding read probe
probe-read fn p h = let p' = (check_read p).0 in (p'.values p'.front, rw h refl, refl)
