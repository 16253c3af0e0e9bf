-- ===== src/Tests/Polling.antt =====
-- A poller with entries, and the listener's application.
use libserverkit.Base.{
  ℕ, ◌==◌, if◌then◌else◌, ◌≡◌, refl, true, false, none, some, List, [], ◌∷◌, ◌++◌, length, arith,
  has, IsNodup, ◌&&◌, ltb, Bool-cases, inl, inr,
}
use libserverkit.ObjectPool.{free}
use libserverkit.BufferList.{Pool, destroy}
use libserverkit.Net.Calls.{AcceptAnswer, accepted, accept_failed}
use libserverkit.Epoll.{
  Epoll, PollerCall, adds_event, dels_handle, add, del, call_all, call_poller, process_retired,
  new_epoll, Handlers, Dispatch, Ready, dispatch_all, dispatch_ready, dispatch_if, dispatch,
  is_valid,
}
use libserverkit.Epoll.Silence.{IsQuiet, IsGone, Knows, handles, dispatch_all-IsQuiet}
use libserverkit.Epoll.Retire.{rounds, AllProper, deleted-IsNodup}
use libserverkit.Server.{Application, listener_in, select_worker}
use libserverkit.Server.Turns.{selections, in_turn}
use libserverkit.Server.Sessions.{sessions, errors, dealt, handed, reported, listener_in-effects}
use libserverkit.Tests.Net.{pool}
use libserverkit.Tests.Sockets.{server}

-- Two entries, 1 for event 70 and 2 for event 80.
abbrev two : Epoll
two = (add 5 80 true (add 4 70 true (new_epoll 1024)).1).1

-- Whoever is called through entry 1 deletes it.
abbrev deletes_first : Handlers
deletes_first d s = if (d.handle == 1) && ltb 1 s.brk then dels_handle 1 0 ∷ [] else []

deletes_first-Knows : (d : Dispatch) (s : Epoll) → Knows s.brk (deletes_first d s)
deletes_first-Knows d s = elim (Bool-cases ((d.handle == 1) && ltb 1 s.brk)) [
  | inl here ↦ rw here (ground arith, tt)
  | inr elsewhere ↦ rw elsewhere tt
]

abbrev all_of : ℕ → Ready
all_of h = record { handle = h; has_error = false; has_in = true; has_out = true }

-- `Out` is not called through entry 1.
dispatch_all_run :
    handles (dispatch_all deletes_first (all_of 1 ∷ all_of 2 ∷ []) two).1 ≡ 1 ∷ 2 ∷ 2 ∷ []
unfolding dispatch_all dispatch_ready dispatch_if dispatch call_all call_poller add del new_epoll
dispatch_all_run = refl

dispatch_all-IsQuiet_example :
    IsQuiet (dispatch_all deletes_first (all_of 1 ∷ all_of 2 ∷ []) two).1
    × ((a : ℕ)
        → IsGone a two
        → has a (handles (dispatch_all deletes_first (all_of 1 ∷ all_of 2 ∷ []) two).1) ≡ false)
dispatch_all-IsQuiet_example =
    dispatch_all-IsQuiet deletes_first deletes_first-Knows (all_of 1 ∷ all_of 2 ∷ []) two

abbrev work : List (List PollerCall)
work =
    (adds_event 4 70 true ∷ adds_event 5 80 true ∷ [])
    ∷ (dels_handle 1 0 ∷ dels_handle 0 0 ∷ [])
    ∷ []

work-AllProper : AllProper work (new_epoll 1024)
unfolding add del new_epoll process_retired call_all call_poller
work-AllProper = (tt, ((λ e. refl, (λ e. cc, tt)), tt))

deleted-IsNodup_example :
    let s = rounds work (new_epoll 1024) in
    IsNodup (s.deleted ++ s.retired_list)
    × ((a : ℕ) → is_valid (s.entry a).fd ≡ true → has a (s.deleted ++ s.retired_list) ≡ false)
deleted-IsNodup_example = deleted-IsNodup 1024 work work-AllProper

-- Both lists of the socket are given back.
abbrev after_write : Pool
after_write = elim (destroy 3 pool server.write_list) [ none ↦ pool | some t ↦ t ]

abbrev after_read : Pool
after_read = elim (destroy 3 after_write server.read_list) [ none ↦ pool | some t ↦ t ]

writes_back : destroy 3 pool server.write_list ≡ some after_write
unfolding destroy free
writes_back = refl

reads_back : destroy 3 after_write server.read_list ≡ some after_read
unfolding destroy free
reads_back = refl

abbrev three_workers : Application
three_workers = record { workers = 3; index = 1 }

selections_run : selections 5 three_workers ≡ 2 ∷ 0 ∷ 1 ∷ 2 ∷ 0 ∷ []
unfolding select_worker
selections_run = refl

-- A connection, an interrupt, one that cannot be made non-blocking, and then no more for now.
abbrev connections : List AcceptAnswer
connections = accepted 7 0 ∷ accept_failed 4 ∷ accepted 8 22 ∷ accept_failed 11 ∷ []

listener_in-effects_example :
    (handed (listener_in 4 connections three_workers).1
      ≡ dealt
          (in_turn (length (sessions connections)) 3 three_workers.index)
          (sessions connections))
    × (reported (listener_in 4 connections three_workers).1 ≡ errors connections)
listener_in-effects_example =
    listener_in-effects 4 connections three_workers (omega arith) (omega arith) (refl, (refl, tt))
