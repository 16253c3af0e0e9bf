-- ===== src/LogThread.antt =====
-- base/log_thread.h and base/log_thread.cc: the two lists of log messages, one of which the other
-- threads fill while the log thread writes the other out. A message is a number; the file is the
-- list of messages appended to it, and `flushed` is what of it was flushed.
pub mod Order
pub mod Disk
use libserverkit.Base.{
  ℕ, ◌+◌, ◌-◌, ◌%◌, ◌^◌, Bool, true, false, List, [], ◌∷◌, ◌++◌, update, leb, if◌then◌else◌,
}

abbrev pub flush_time_interval : ℕ
flush_time_interval = 500

-- `write_list_` and `read_list_` lead into `log_list_`: they are indices.
pub record LogThread : Type 0 where
  pub log_list : ℕ → List ℕ
  pub write_index : ℕ
  pub write_list : ℕ
  pub read_list : ℕ
  pub last_flush_time : ℕ
  pub has_file : Bool
  pub file : List ℕ
  pub flushed : List ℕ

abbrev no_messages : ℕ → List ℕ
no_messages i = []

-- `LogThread()`
unfoldable pub new_log : LogThread
new_log = record {
  log_list = no_messages;
  write_index = 0;
  write_list = 0;
  read_list = 1;
  last_flush_time = 0;
  has_file = false;
  file = [];
  flushed = [];
}

-- `Send`
unfoldable pub send_log : ℕ → LogThread → LogThread
send_log msg l = record l {
  log_list = update l.log_list l.write_list (l.log_list l.write_list ++ msg ∷ []);
}

-- `iterList` of the list with index `i`: `output` of each message, the first of which opens the file,
-- then `clear`.
unfoldable pub write_out : List ℕ → ℕ → LogThread → LogThread
write_out [] i l = l
write_out (msg ∷ lst) i l = record l {
  has_file = true;
  file = l.file ++ msg ∷ lst;
  log_list = update l.log_list i [];
}

unfoldable pub iter_list : ℕ → LogThread → LogThread
unfolding write_out
iter_list i l = write_out (l.log_list i) i l

-- `flush` at the reading `now`
unfoldable pub flush_file : ℕ → LogThread → LogThread
flush_file now l = record l {
  flushed = if l.has_file then l.file else l.flushed;
  last_flush_time = now;
}

abbrev pub is_empty_list : List ℕ → Bool
is_empty_list [] = true
is_empty_list (x ∷ xs) = false

-- The exchange at the start of `Timeout`.
unfoldable pub exchange : LogThread → LogThread
exchange l =
    if is_empty_list (l.log_list l.read_list)
    then record l {
      read_list = l.write_index;
      write_index = (l.write_index + 1) % 2;
      write_list = (l.write_index + 1) % 2;
    }
    else l

-- The flush that ends `Timeout`; the times are unsigned numbers of 64 bits.
unfoldable pub flush_if_old : ℕ → ℕ → LogThread → LogThread
unfolding flush_file
flush_if_old now after l =
    if leb flush_time_interval ((2 ^ 64 + now - l.last_flush_time) % 2 ^ 64)
    then flush_file after l
    else l

-- `Timeout`, with its two readings of the clock
unfoldable pub timeout_log : ℕ → ℕ → LogThread → LogThread
unfolding exchange iter_list flush_if_old
timeout_log now after l =
    let done = iter_list (exchange l).read_list (exchange l) in flush_if_old now after done

-- `Flush(true)` at the end of the program, where no other thread runs
unfoldable pub flush_end : ℕ → LogThread → LogThread
unfolding iter_list flush_file
flush_end now l =
    let read = iter_list l.read_list l in flush_file now (iter_list read.write_list read)

-- `~LogThread()` makes the same calls as `Flush(true)`, and then deletes the poller and the mutex.
unfoldable pub destroy_log : ℕ → LogThread → LogThread
unfolding flush_end
destroy_log now l = flush_end now l
