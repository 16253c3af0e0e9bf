-- ===== src/Mailbox/Flush.antt =====
-- The two parts of a send are the pipe's own `Write` and `Flush`.
use libserverkit.Base.{
  ℕ, ◌+◌, ◌≤◌, ◌≡◌, refl, false, arith, if◌then◌else◌, ==_ne, Bool-cases, inl, inr,
}
use libserverkit.YPipe.{write, flush, is}
use libserverkit.Mailbox.{Mailbox, send, store}

-- What `Send` does to the pipe, without the threads in between: the store follows where the
-- compare-and-swap failed.
abbrev pub send_at_once : ℕ → Mailbox → Mailbox
send_at_once msg m = if (send msg m).held then store (send msg m) else send msg m

-- With the pointer `w_` not behind the queue's back, a send without another thread in between does to
-- the pipe what `Write` and then `Flush` do, and it owes a signal just where `Flush` gives false.
pub send-flush :
    (msg : ℕ) (m : Mailbox)
    → m.pipe.w ≤ m.pipe.back
    → ((send_at_once msg m).pipe ≡ (flush (write msg false m.pipe)).0)
      × ((send_at_once msg m).owed
          ≡ (if (flush (write msg false m.pipe)).1 then m.owed else m.owed + 1))
unfolding send store flush write
send-flush msg m h = elim (Bool-cases (is m.pipe.c m.pipe.w)) [
  | inl e ↦ rw (==_ne m.pipe.w (m.pipe.back + 1) (omega arith), e) (refl, refl)
  | inr e ↦ rw (==_ne m.pipe.w (m.pipe.back + 1) (omega arith), e) (refl, refl)
]
