-- ===== src/Tests/Server.antt =====
-- A generator whose hash adds its arguments, and a poller with two timers.
use libserverkit.Base.{length, ◌<◌}
use libserverkit.Poller.{events, later, renew_all, wait_of}
use libserverkit.Poller.Callbacks.{TimerRequest, adds, ids, execute_calling}
use libserverkit.Poller.Callbacks.Added.{IsLater, asked, execute_calling_lem}
use libserverkit.Base.{All, IsNodup, has, true}
use libserverkit.Rpc.Session.{RpcMeta, get_service}
use libserverkit.Rpc.Session.Register.{hashes, IsFree}
use libserverkit.Server.Listeners.{
  ListenerMap, rpc_service, find_listener, add_rpc_service, served_at,
}
use libserverkit.Server.Registry.{methods_of, add_rpc_service_lem}
use libserverkit.Base.{ℕ, ◌+◌, ◌≡◌, some, ◌++◌, refl, List, [], ◌∷◌, IsNodup, arith, slice}
use libserverkit.GlobalId.{new_generator, new_ids, init, new_random, reset, take_id, new_id}
use libserverkit.Poller.{
  Poller, TimerEntry, once, permanent, new_poller, add_timer, insert, due, find_id, execute_timers,
  cancel_timer,
}
use libserverkit.Poller.Settled.{IsSorted, Repeats, Pending}
use libserverkit.Poller.Callbacks.Pending.{execute_calling-Pending}
use libserverkit.Poller.Cancel.{both, cancel_timer_stale}
use libserverkit.LogThread.{
  new_log, send_log, timeout_log, exchange, iter_list, write_out, flush_if_old, flush_end,
  destroy_log,
}
use libserverkit.LogThread.Order.{LogEvent, logs, fires, log_run, logged}
use libserverkit.LogThread.Disk.{output_all, texts, TakesAll, flush_end-on_disk}
use libserverkit.File.{FileAnswer, wrote, append}
use libserverkit.Log.{LogMessageData}
use libserverkit.GlobalId.Batch.{new_ids-IsNodup}

abbrev sum : ℕ → ℕ → ℕ
sum a b = a + b

abbrev readings : List (ℕ × ℕ)
readings = (5, 6) ∷ (7, 8) ∷ (9, 9) ∷ []

new_ids_run : new_ids sum 8000 readings new_generator ≡ 7824 ∷ 7643 ∷ 7462 ∷ []
unfolding new_ids init new_random reset take_id new_id
new_ids_run = refl

new_ids-IsNodup_example : IsNodup (new_ids sum 8000 readings new_generator)
new_ids-IsNodup_example = new_ids-IsNodup sum 8000 readings new_generator refl (omega arith)

-- A permanent timer every 50 ms and one in 90 ms, both added at 0.
abbrev two_timers : Poller
two_timers = (add_timer 0 90 8 once (add_timer 0 50 7 permanent new_poller).0).0

abbrev every_50 : TimerEntry
every_50 = record { timeout = 50; expire = 50; event = 7; id = 1; t = permanent }

abbrev in_90 : TimerEntry
in_90 = record { timeout = 90; expire = 90; event = 8; id = 2; t = once }

execute_timers_run : (execute_timers 60 two_timers).1 ≡ (7 ∷ [])
unfolding execute_timers add_timer due
execute_timers_run = refl

two_timers-IsSorted : IsSorted two_timers.timers
unfolding add_timer insert
two_timers-IsSorted = ((omega arith, tt), (tt, tt))

two_timers-Repeats : Repeats 95 two_timers.timers
unfolding add_timer insert
two_timers-Repeats = (λ e. (omega arith, omega arith), (λ e. (omega arith, omega arith), tt))

in_90_found : find_id in_90.id two_timers.timer_ids ≡ some in_90
unfolding find_id add_timer
in_90_found = refl

in_90_place : two_timers.timers ≡ ((50, every_50) ∷ []) ++ (in_90.expire, in_90) ∷ []
unfolding add_timer insert
in_90_place = refl

cancel_timer_stale_example :
    cancel_timer every_50.id (execute_timers 60 (both 60 2 every_50 in_90)).0
    ≡ some (record (both 60 2 every_50 in_90) {
      timers = (60 + every_50.timeout, every_50) ∷ [];
      timer_ids = (in_90.id, in_90) ∷ [];
    })
cancel_timer_stale_example =
    cancel_timer_stale 60 2 every_50 in_90 refl (omega arith) (omega arith) (omega arith)
      (omega arith) (omega arith)

-- Two messages, a timeout, a third message.
abbrev log_events : List LogEvent
log_events = logs 4 ∷ logs 5 ∷ fires 100 101 ∷ logs 6 ∷ []

log_run_run : (log_run log_events new_log).file ≡ 4 ∷ 5 ∷ []
unfolding log_run new_log send_log timeout_log exchange iter_list write_out flush_if_old
log_run_run = refl

-- Message `k` has `k` bytes.
abbrev text_of : ℕ → LogMessageData
text_of k = record { text = λ i. 48 + i; pcount = k }

abbrev log_writes : List FileAnswer
log_writes = wrote 4 ∷ wrote 5 ∷ wrote 6 ∷ []

writes-TakesAll : TakesAll text_of (logged log_events) log_writes
unfolding slice
writes-TakesAll = omega arith

-- Where the second write takes two bytes, the other three are lost.
short_write :
    output_all text_of (1 ∷ 5 ∷ 2 ∷ []) (wrote 1 ∷ wrote 2 ∷ wrote 2 ∷ []) []
    ≡ some (48 ∷ 48 ∷ 49 ∷ 48 ∷ 49 ∷ [])
unfolding output_all append slice
short_write = refl

flush_end-on_disk_example :
    let l = flush_end 300 (log_run log_events new_log) in
    (l.file ≡ logged log_events)
    × (l.flushed ≡ logged log_events)
    × (output_all text_of l.file log_writes [] ≡ some (texts text_of (logged log_events)))
    × (destroy_log 300 (log_run log_events new_log) ≡ l)
flush_end-on_disk_example = flush_end-on_disk log_events 300 text_of log_writes writes-TakesAll

-- A second service at address 5, whose methods' names hash to 78 and 79.
abbrev hash_of : ℕ → ℕ
hash_of k = 76 + k

abbrev one_service : ListenerMap
one_service = (5, rpc_service ((77, record { service = 3; method = 1 }) ∷ [])) ∷ []

new_hashes : IsNodup (hashes hash_of 4 (2 ∷ 3 ∷ []))
new_hashes = (refl, (refl, tt))

all-IsFree :
    All
      (IsFree hash_of 4 ((77, record { service = 3; method = 1 }) ∷ []))
      (hashes hash_of 4 (2 ∷ 3 ∷ []))
unfolding get_service
all-IsFree = (refl, (refl, tt))

found_there :
    methods_of (find_listener 5 one_service) ≡ some ((77, record { service = 3; method = 1 }) ∷ [])
unfolding find_listener
found_there = refl

add_rpc_service_lem_example :
    (ls' : ListenerMap) × (add_rpc_service hash_of 5 4 (2 ∷ 3 ∷ []) one_service ≡ some ls')
    × ((method : ℕ)
        → has method (2 ∷ 3 ∷ []) ≡ true
        → served_at 5 (hash_of method) ls' ≡ some (record { service = 4; method = method }))
    × ((a k : ℕ) (x : RpcMeta) → served_at a k one_service ≡ some x → served_at a k ls' ≡ some x)
add_rpc_service_lem_example =
    add_rpc_service_lem hash_of 5 4 (2 ∷ 3 ∷ []) one_service
      ((77, record { service = 3; method = 1 }) ∷ []) found_there new_hashes all-IsFree

-- At 95 both timers are due; each callback adds a timer in 20 ms.
abbrev one_more : ℕ → List TimerRequest
one_more event = adds 95 20 9 once ∷ []

one_more-IsLater : (event : ℕ) → All (IsLater 95) (one_more event)
one_more-IsLater event = (omega arith, tt)

due-length : length (due 95 two_timers.timers) < 3
unfolding due add_timer insert
due-length = omega arith

due-IsNodup : IsNodup (ids (due 95 two_timers.timers))
unfolding due add_timer insert
due-IsNodup = (refl, (refl, tt))

execute_calling_lem_example :
    execute_calling one_more 3 95 two_timers
    ≡ some (
      renew_all 95
          (due 95 two_timers.timers)
          (asked one_more (events (due 95 two_timers.timers)) two_timers),
      events (due 95 two_timers.timers),
      wait_of 95 (later 95 (asked one_more (events (due 95 two_timers.timers)) two_timers).timers),
    )
execute_calling_lem_example =
    execute_calling_lem one_more 95 one_more-IsLater 3 two_timers due-length due-IsNodup

execute_calling-Pending_example :
    (p' : Poller) × (called : List ℕ) × (wait : ℕ) × (execute_calling one_more 3 95 two_timers
      ≡ some (p', called, wait))
    × Pending 95 p'.timers
    × IsSorted p'.timers
execute_calling-Pending_example =
    execute_calling-Pending one_more 3 95 two_timers one_more-IsLater due-length due-IsNodup
      two_timers-IsSorted two_timers-Repeats
