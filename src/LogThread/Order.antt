-- ===== src/LogThread/Order.antt =====
-- Nothing that was sent to the log is lost, and it is written in order.
use libserverkit.Base.{
  ℕ, ◌+◌, ◌%◌, ◌<◌, ◌≡◌, refl, sym, ap, subst, ◌∙◌, Bool, true, false, List, [], ◌∷◌, ◌++◌, arith,
  append_assoc, append-nil, update_self, update_ne, if◌then◌else◌,
}
use libserverkit.LogThread.{
  LogThread, new_log, send_log, write_out, iter_list, flush_file, flush_if_old, exchange,
  timeout_log,
}

-- What happens to the log: a message is sent, or the log thread's timer fires, with its readings.
pub data LogEvent : Type 0 where
  logs : ℕ → LogEvent
  fires : ℕ → ℕ → LogEvent

abbrev pub log_step : LogEvent → LogThread → LogThread
log_step (logs msg) l = send_log msg l
log_step (fires now after) l = timeout_log now after l

unfoldable pub log_run : List LogEvent → LogThread → LogThread
log_run [] l = l
log_run (e ∷ es) l = log_run es (log_step e l)

abbrev pub logged : List LogEvent → List ℕ
logged [] = []
logged (logs msg ∷ es) = msg ∷ logged es
logged (fires now after ∷ es) = logged es

-- The two lists are different ones, and the log thread has written its own out. The messages `xs`
-- are those in the file and those that wait.
pub record IsIdle (l : LogThread) (xs : List ℕ) : Type 0 where
  pub index : l.write_index < 2
  pub written : l.write_list ≡ l.write_index
  pub other : l.read_list ≡ (l.write_index + 1) % 2
  pub done : l.log_list l.read_list ≡ []
  pub all : l.file ++ l.log_list l.write_list ≡ xs

flush_if_old-IsIdle :
    (now after : ℕ) (l : LogThread) (xs : List ℕ)
    → IsIdle l xs
    → IsIdle (flush_if_old now after l) xs
unfolding flush_if_old flush_file
flush_if_old-IsIdle now after l xs h = either _ (flush_file after l) l flushed h
  where
    either :
        (b : Bool) (m n : LogThread) → IsIdle m xs → IsIdle n xs → IsIdle (if b then m else n) xs
    either true m n i j = i
    either false m n i j = j

    flushed : IsIdle (flush_file after l) xs
    flushed = record {
      index = h.index;
      written = h.written;
      other = h.other;
      done = h.done;
      all = h.all;
    }

-- Where the log thread's list is written out, the file has it and it is empty.
write_out-IsIdle :
    (lst : List ℕ) (l : LogThread) (xs : List ℕ)
    → l.log_list l.read_list ≡ lst
    → l.write_index < 2
    → l.write_list ≡ l.write_index
    → l.read_list ≡ (l.write_index + 1) % 2
    → l.log_list l.write_list ≡ []
    → l.file ++ lst ≡ xs
    → IsIdle (write_out lst l.read_list l) xs
unfolding write_out
write_out-IsIdle [] l xs e i w r n a = record {
  index = i;
  written = w;
  other = r;
  done = e;
  all = ap (λ ys. l.file ++ ys) n ∙ a;
}
write_out-IsIdle (x ∷ lst) l xs e i w r n a = record {
  index = i;
  written = w;
  other = r;
  done = update_self l.log_list l.read_list [];
  all =
      ap (λ ys. (l.file ++ x ∷ lst) ++ ys)
        (update_ne l.log_list l.read_list [] l.write_list (omega (arith, i, w, r)) ∙ n)
      ∙ append-nil (l.file ++ x ∷ lst)
      ∙ a;
}

exchanged : LogThread → LogThread
exchanged l = record l {
  read_list = l.write_index;
  write_index = (l.write_index + 1) % 2;
  write_list = (l.write_index + 1) % 2;
}

exchange-IsIdle : (l : LogThread) (xs : List ℕ) → IsIdle l xs → exchange l ≡ exchanged l
unfolding exchange exchanged
exchange-IsIdle l xs h = rw h.done

timeout_log-IsIdle :
    (now after : ℕ) (l : LogThread) (xs : List ℕ)
    → IsIdle l xs
    → IsIdle (timeout_log now after l) xs
unfolding timeout_log iter_list exchanged
timeout_log-IsIdle now after l xs h = flush_if_old-IsIdle now after _ xs (
    subst (λ m. IsIdle (write_out (m.log_list m.read_list) m.read_list m) xs)
      (sym (exchange-IsIdle l xs h))
      (write_out-IsIdle (l.log_list l.write_index) (exchanged l) xs refl (omega arith) refl
        (omega (arith, h.index)) (ap l.log_list (sym h.other) ∙ h.done)
        (ap (λ i. l.file ++ l.log_list i) (sym h.written) ∙ h.all)))

send_log-IsIdle :
    (msg : ℕ) (l : LogThread) (xs : List ℕ) → IsIdle l xs → IsIdle (send_log msg l) (xs ++ msg ∷ [])
unfolding send_log
send_log-IsIdle msg l xs h = record {
  index = h.index;
  written = h.written;
  other = h.other;
  done =
      update_ne l.log_list l.write_list _ l.read_list (omega (arith, h.index, h.written, h.other))
      ∙ h.done;
  all =
      ap (λ ys. l.file ++ ys) (update_self l.log_list l.write_list _)
      ∙ sym (append_assoc l.file (l.log_list l.write_list) (msg ∷ []))
      ∙ ap (λ ys. ys ++ msg ∷ []) h.all;
}

pub log_run-IsIdle :
    (es : List LogEvent) (l : LogThread) (xs : List ℕ)
    → IsIdle l xs
    → IsIdle (log_run es l) (xs ++ logged es)
unfolding log_run
log_run-IsIdle [] l xs h = subst (IsIdle l) (sym (append-nil xs)) h
log_run-IsIdle (logs msg ∷ es) l xs h =
    subst (IsIdle (log_run es (send_log msg l))) (append_assoc xs (msg ∷ []) (logged es))
      (log_run-IsIdle es (send_log msg l) (xs ++ msg ∷ []) (send_log-IsIdle msg l xs h))
log_run-IsIdle (fires now after ∷ es) l xs h =
    log_run-IsIdle es (timeout_log now after l) xs (timeout_log-IsIdle now after l xs h)

pub new_log-IsIdle : IsIdle new_log []
unfolding new_log
new_log-IsIdle = record {
  index = omega arith;
  written = refl;
  other = refl;
  done = refl;
  all = refl;
}

-- Over any sequence of sends and timeouts of a new log thread, the messages written to the file,
-- followed by those that wait in the list of the senders, are the messages sent, in their order.
pub log_run-logged :
    (es : List LogEvent)
    → (log_run es new_log).file ++ (log_run es new_log).log_list (log_run es new_log).write_list
      ≡ logged es
log_run-logged es = (log_run-IsIdle es new_log [] new_log-IsIdle).all

pub write_out-file :
    (lst : List ℕ) (i : ℕ) (l : LogThread) → (write_out lst i l).file ≡ l.file ++ lst
unfolding write_out
write_out-file [] i l = sym (append-nil l.file)
write_out-file (x ∷ lst) i l = refl

flush_if_old-file : (now after : ℕ) (l : LogThread) → (flush_if_old now after l).file ≡ l.file
unfolding flush_if_old flush_file
flush_if_old-file now after l = ground arith

timeout_log-file :
    (now after : ℕ) (l : LogThread) (xs : List ℕ)
    → IsIdle l xs
    → (timeout_log now after l).file ≡ xs
unfolding timeout_log iter_list exchanged
timeout_log-file now after l xs h =
    flush_if_old-file now after _
    ∙ ap (λ m. (write_out (m.log_list m.read_list) m.read_list m).file) (exchange-IsIdle l xs h)
    ∙ write_out-file (l.log_list l.write_index) l.write_index (exchanged l)
    ∙ ap (λ i. l.file ++ l.log_list i) (sym h.written)
    ∙ h.all

-- After any sequence of sends and timeouts of a new log thread, the next timeout has every message
-- that was sent in the file, in the order of the sends.
pub timeout_log-logged :
    (es : List LogEvent) (now after : ℕ)
    → (timeout_log now after (log_run es new_log)).file ≡ logged es
timeout_log-logged es now after =
    timeout_log-file now after (log_run es new_log) (logged es)
      (log_run-IsIdle es new_log [] new_log-IsIdle)
