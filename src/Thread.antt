-- ===== src/Thread.antt =====
-- base/thread.h and base/thread.cc: a thread is started by one that waits on a spin lock until the
-- new thread has set its own state, and is joined later. The two take their steps in any order; a
-- step makes at most one access to what they share.
--
-- `pthread_create` is not part of this code: what it returns and the id it stores are parameters, and
-- there is a new thread just when it returns 0. `pthread_join` waits for the end of the thread. What
-- the thread is called on the system's side (`prctl`) is left out.
pub mod Places
pub mod Start
pub mod Sound
pub mod Stages
pub mod Leaving
pub mod Join
pub mod Returns
use libserverkit.Base.{
  ℕ, ◌+◌, Bool, true, false, not, ◌||◌, Option, none, some, List, [], ◌∷◌, ◌++◌, ◌==◌,
  if◌then◌else◌,
}
use libserverkit.SpinLock
use libserverkit.SpinLock.{Pc, outside, fast, slow, holding}

-- `ThreadState`
pub data ThreadState : Type 0 where
  thread_none : ThreadState
  thread_running : ThreadState
  thread_stopped : ThreadState

-- `Thread`; a callback is a number, and `none` is `NULL`.
pub record Thread : Type 0 where
  pub tid : ℕ
  pub name : List ℕ
  pub state : ThreadState
  pub callback : Option ℕ

-- `Thread(name)` and `Thread(name, func)`
unfoldable pub new_thread : List ℕ → Option ℕ → Thread
new_thread name callback = record { tid = 0; name = name; state = thread_none; callback = callback }

-- `Running`
abbrev pub is_running : Thread → Bool
is_running t = elim t.state [ thread_running ↦ true | _ ↦ false ]

-- `perThreadInfo` of the new thread; there is one thread object.
pub record PerThreadInfo : Type 0 where
  pub has_thread : Bool
  pub name : List ℕ

-- The name is "main".
unfoldable pub new_info : PerThreadInfo
new_info = record { has_thread = false; name = 109 ∷ 97 ∷ 105 ∷ 110 ∷ [] }

-- Where the thread stands that calls `Start` and then `Join`: in the first `Lock`, in the second,
-- behind the return of `Start`, at `pthread_join`, and behind the return of `Join`.
pub data Starter : Type 0 where
  first : Pc → Starter
  second : Pc → Starter
  started : Starter
  joining : Starter
  joined : Starter

-- Where the new thread stands in `main`.
pub data Child : Type 0 where
  unborn : Child
  -- before it has read its entry
  born : Child
  -- before it sets its information
  loaded : Child
  -- before it sets the state
  informed : Child
  -- before `UnLock`
  marked : Child
  -- before `Run` or the callback
  working : Child
  ended : Child

-- `frame` tells whether the frame of `Start` is there, in which the lock and the entry are, and
-- `is_lost` whether the new thread has used it when it was not. `called` is what the new thread ran.
pub record Starting : Type 0 where
  pub thread : Thread
  pub info : PerThreadInfo
  pub word : Bool
  pub frame : Bool
  pub is_lost : Bool
  pub starter : Starter
  pub child : Child
  pub called : List (Option ℕ)

-- A thread object on which `Start` is called.
unfoldable pub call_start : Thread → Starting
unfolding new_info
call_start t = record {
  thread = t;
  info = new_info;
  word = false;
  frame = true;
  is_lost = false;
  starter = first fast;
  child = unborn;
  called = [];
}

-- `pthread_create` with its result `ret` and the id `tid`
unfoldable pub create : ℕ → ℕ → Starting → Starting
create ret tid s =
    if ret == 0
    then record s { thread = record s.thread { tid = tid }; child = born; starter = second fast }
    else record s { starter = second fast }

-- The steps of `Start`
unfoldable pub start : ℕ → ℕ → Pc → Bool → Starting → Starting
unfolding create
start ret tid holding false s = create ret tid s
start ret tid holding true s = record s { frame = false; starter = started }
start ret tid p is_second s =
    let (word, q) = SpinLock.step s.word p in
    record s { word = word; starter = if is_second then second q else first q }

-- `Join`, up to `pthread_join`, and from its return on
unfoldable pub join : Starting → Starting
join s = record s {
  thread = record s.thread { state = thread_stopped };
  starter = if s.thread.tid == 0 then joined else joining;
}

unfoldable pub pthread_joined : Starting → Starting
pthread_joined s = elim s.child [
  | ended ↦ record s { thread = record s.thread { tid = 0 }; starter = joined }
  | _ ↦ s
]

unfoldable pub starter_step : ℕ → ℕ → Starter → Starting → Starting
unfolding start join pthread_joined
starter_step ret tid (first p) s = start ret tid p false s
starter_step ret tid (second p) s = start ret tid p true s
starter_step ret tid started s = join s
starter_step ret tid joining s = pthread_joined s
starter_step ret tid joined s = s

-- `Thread::main`
unfoldable pub main : Child → Starting → Starting
main unborn s = s
main born s = record s { is_lost = s.is_lost || not s.frame; child = loaded }
main loaded s = record s {
  info = record { has_thread = true; name = s.thread.name };
  child = informed;
}
main informed s = record s { thread = record s.thread { state = thread_running }; child = marked }
main marked s = record s {
  word = SpinLock.un_lock.0;
  is_lost = s.is_lost || not s.frame;
  child = working;
}
main working s = record s { called = s.called ++ s.thread.callback ∷ []; child = ended }
main ended s = s

pub data Actor : Type 0 where
  the_starter : Actor
  the_child : Actor

unfoldable pub turn : ℕ → ℕ → Actor → Starting → Starting
unfolding starter_step main
turn ret tid the_starter s = starter_step ret tid s.starter s
turn ret tid the_child s = main s.child s

unfoldable pub run : ℕ → ℕ → List Actor → Starting → Starting
unfolding turn
run ret tid [] s = s
run ret tid (a ∷ order) s = run ret tid order (turn ret tid a s)
