-- ===== src/LogThread/Disk.antt =====
-- What of the log is on the disk in the end.
use libserverkit.Base.{
  ℕ, ◌+◌, ◌-◌, ◌^◌, leb, ◌%◌, ◌≡◌, refl, sym, ap, ◌∙◌, Bool, true, false, Option, none, some, List,
  [], ◌∷◌, ◌++◌, arith, take, take_all, append_assoc, append-nil, length, inl, inr, Bool-cases,
  if◌then◌else◌,
}
use libserverkit.File.{FileAnswer, write_failed, wrote, append}
use libserverkit.Log.{LogMessageData, contents}
use libserverkit.LogThread.{
  LogThread, new_log, send_log, write_out, iter_list, flush_file, flush_if_old, exchange,
  timeout_log, flush_end, destroy_log, flush_time_interval,
}
use libserverkit.LogThread.Order.{
  LogEvent, logs, fires, log_step, log_run, logged, IsIdle, log_run-IsIdle, new_log-IsIdle,
  write_out-file,
}

-- `output` of messages, one after another, on the bytes of the file. `text` is what a message's
-- address leads to. The result of `Append` is not looked at. `none` is a lack of answers.
unfoldable pub output_all :
    (ℕ → LogMessageData) → List ℕ → List FileAnswer → List ℕ → Option (List ℕ)
unfolding append
output_all text [] rs bytes = some bytes
output_all text (msg ∷ msgs) [] bytes = none
output_all text (msg ∷ msgs) (r ∷ rs) bytes =
    output_all text msgs rs (append r (contents (text msg)) bytes).1

-- The bytes of messages
abbrev pub texts : (ℕ → LogMessageData) → List ℕ → List ℕ
texts text [] = []
texts text (msg ∷ msgs) = contents (text msg) ++ texts text msgs

-- Each write takes the whole message.
abbrev pub TakesAll : (ℕ → LogMessageData) → List ℕ → List FileAnswer → Type 0
TakesAll text [] rs = Unit {0}
TakesAll text (msg ∷ msgs) [] = ⊥
TakesAll text (msg ∷ msgs) (write_failed ∷ rs) = ⊥
TakesAll text (msg ∷ msgs) (wrote n ∷ rs) =
    (n ≡ length (contents (text msg))) × TakesAll text msgs rs

output_all_lem :
    (text : ℕ → LogMessageData) (msgs : List ℕ) (rs : List FileAnswer) (bytes : List ℕ)
    → TakesAll text msgs rs
    → output_all text msgs rs bytes ≡ some (bytes ++ texts text msgs)
unfolding output_all append
output_all_lem text [] rs bytes h = ap some (sym (append-nil bytes))
output_all_lem text (msg ∷ msgs) [] bytes h = absurd h
output_all_lem text (msg ∷ msgs) (write_failed ∷ rs) bytes h = absurd h
output_all_lem text (msg ∷ msgs) (wrote n ∷ rs) bytes h =
    let whole = take_all n (contents (text msg)) (omega (arith, h.0)) in
    output_all_lem text msgs rs (bytes ++ take n (contents (text msg))) h.1
    ∙ ap (λ xs. some ((bytes ++ xs) ++ texts text msgs)) whole
    ∙ ap some (append_assoc bytes (contents (text msg)) (texts text msgs))

-- As long as there is no file nothing was written or flushed.
abbrev Unopened : LogThread → Type 0
Unopened l = l.has_file ≡ false → (l.file ≡ []) × (l.flushed ≡ [])

write_out-Unopened :
    (lst : List ℕ) (i : ℕ) (l : LogThread) → Unopened l → Unopened (write_out lst i l)
unfolding write_out
write_out-Unopened [] i l u = u
write_out-Unopened (x ∷ lst) i l u = λ h. cc

iter_list-Unopened : (i : ℕ) (l : LogThread) → Unopened l → Unopened (iter_list i l)
unfolding iter_list
iter_list-Unopened i l u = write_out-Unopened (l.log_list i) i l u

exchange-Unopened : (l : LogThread) → Unopened l → Unopened (exchange l)
unfolding exchange
exchange-Unopened l u h = ground (arith, u)

flush_file-Unopened : (now : ℕ) (l : LogThread) → Unopened l → Unopened (flush_file now l)
unfolding flush_file
flush_file-Unopened now l u h = ground (arith, u)

flush_if_old-Unopened :
    (now after : ℕ) (l : LogThread) → Unopened l → Unopened (flush_if_old now after l)
unfolding flush_if_old
flush_if_old-Unopened now after l u =
    either (flush_file after l) l
      (leb flush_time_interval ((2 ^ 64 + now - l.last_flush_time) % 2 ^ 64))
      (flush_file-Unopened after l u) u
  where
    either : (m n : LogThread) (b : Bool) → Unopened m → Unopened n → Unopened (if b then m else n)
    either m n true i j = i
    either m n false i j = j

log_step-Unopened : (e : LogEvent) (l : LogThread) → Unopened l → Unopened (log_step e l)
unfolding send_log timeout_log
log_step-Unopened (logs msg) l u = u
log_step-Unopened (fires now after) l u =
    let m = exchange l in
    flush_if_old-Unopened now after (iter_list m.read_list m)
      (iter_list-Unopened m.read_list m (exchange-Unopened l u))

log_run-Unopened : (es : List LogEvent) (l : LogThread) → Unopened l → Unopened (log_run es l)
unfolding log_run
log_run-Unopened [] l u = u
log_run-Unopened (e ∷ es) l u = log_run-Unopened es (log_step e l) (log_step-Unopened e l u)

flush_end-file : (now : ℕ) (l : LogThread) (xs : List ℕ) → IsIdle l xs → (flush_end now l).file ≡ xs
unfolding flush_end iter_list write_out flush_file
flush_end-file now l xs h =
    ap
      (λ lst.
        (write_out ((write_out lst l.read_list l).log_list (write_out lst l.read_list l).write_list)
          (write_out lst l.read_list l).write_list (write_out lst l.read_list l)).file)
      h.done
    ∙ write_out-file (l.log_list l.write_list) l.write_list l
    ∙ h.all

flushes_all : (now : ℕ) (l : LogThread) → Unopened l → (flush_file now l).flushed ≡ l.file
unfolding flush_file
flushes_all now l u = elim (Bool-cases l.has_file) [
  | inl e ↦ rw e refl
  | inr e ↦ rw e ((u e).1 ∙ sym (u e).0)
]

flush_end-flushed :
    (now : ℕ) (l : LogThread) → Unopened l → (flush_end now l).flushed ≡ (flush_end now l).file
unfolding flush_end flush_file
flush_end-flushed now l u =
    let m = iter_list l.read_list l in
    flushes_all now (iter_list m.write_list m)
      (iter_list-Unopened m.write_list m (iter_list-Unopened l.read_list l u))

new_log-Unopened : Unopened new_log
unfolding new_log
new_log-Unopened h = (refl, refl)

-- After any sequence of sends and timeouts of a new log thread, `Flush(true)`, or the destructor, which
-- does the same: every message that was sent was given to the file once, in the order of the sends,
-- and all of it was flushed; and where the system takes all of what each write gives it, the bytes of
-- the file are those of the messages, one behind the other.
pub flush_end-on_disk :
    (es : List LogEvent) (now : ℕ) (text : ℕ → LogMessageData) (rs : List FileAnswer)
    → TakesAll text (logged es) rs
    → let l = flush_end now (log_run es new_log) in
      (l.file ≡ logged es)
      × (l.flushed ≡ logged es)
      × (output_all text l.file rs [] ≡ some (texts text (logged es)))
      × (destroy_log now (log_run es new_log) ≡ l)
unfolding destroy_log
flush_end-on_disk es now text rs h =
    let l = log_run es new_log in
    let file = flush_end-file now l (logged es) (log_run-IsIdle es new_log [] new_log-IsIdle) in
    (
      file,
      flush_end-flushed now l (log_run-Unopened es new_log new_log-Unopened) ∙ file,
      ap (λ msgs. output_all text msgs rs []) file ∙ output_all_lem text (logged es) rs [] h,
      refl,
    )
