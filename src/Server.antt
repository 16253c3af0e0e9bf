-- ===== src/Server.antt =====
-- core/application.cc, core/listener.cc and core/worker.cc: the thread that accepts connections gives
-- them to the worker threads in turn.
pub mod Turns
pub mod Waking
pub mod Listeners
pub mod Registry
pub mod Sessions
use libserverkit.Base.{
  ℕ, zero, suc, ◌+◌, ◌%◌, Bool, true, false, Option, none, some, List, [], ◌∷◌, ◌++◌, ◌==◌,
  if◌then◌else◌, ◌>>=◌,
}
use libserverkit.Net.{k_ok, k_error, eintr}
use libserverkit.Net.Calls.{AcceptAnswer, accepted, accept_failed, accept, Accepted}

-- `Application`: the number of workers, and the index of the last one selected.
pub record Application : Type 0 where
  pub workers : ℕ
  pub index : ℕ

-- A message for a worker, by the worker's index
pub data WorkerMessage : Type 0 where
  accept_message : (worker session : ℕ) → WorkerMessage
  rpc_channel_message : (worker endpoint : ℕ) → WorkerMessage

-- `selectWorker`
unfoldable pub select_worker : Application → Application × ℕ
select_worker a = let index = (a.index + 1) % a.workers in (record a { index = index }, index)

-- `AcceptNewSession`
unfoldable pub accept_new_session : ℕ → Application → Application × WorkerMessage
unfolding select_worker
accept_new_session session a =
    let (a', worker) = select_worker a in (a', accept_message worker session)

-- `CreateRpcChannel`
unfoldable pub create_rpc_channel : ℕ → Application → Application × WorkerMessage
unfolding select_worker
create_rpc_channel endpoint a =
    let (a', worker) = select_worker a in (a', rpc_channel_message worker endpoint)

-- What a worker does with a message: `Worker::Process`, of one of the two kinds.
pub data WorkerAction : Type 0 where
  sets_poller : (session : ℕ) → WorkerAction
  makes_channel : (endpoint : ℕ) → WorkerAction

unfoldable pub process : WorkerMessage → WorkerAction
process (accept_message worker session) = sets_poller session
process (rpc_channel_message worker endpoint) = makes_channel endpoint

-- What the loop of `Listener::In` does: a session is made for a descriptor and sent to a worker, or
-- the handler is told of an error.
pub data ListenerEffect : Type 0 where
  hands : WorkerMessage → ListenerEffect
  on_error : ℕ → ListenerEffect

-- The body of the loop. The session is named by its descriptor.
unfoldable pub listener_round : Accepted → Application → Application × ListenerEffect
unfolding accept_new_session
listener_round r a =
    let (a', m) = accept_new_session r.result a in
    if r.err == k_ok then (a', hands m) else (a, on_error r.err)

-- `In` has no way out of its loop: these are the effects of its first rounds, as far as the answers
-- go, in at most `fuel` rounds.
unfoldable pub listener_in : ℕ → List AcceptAnswer → Application → Application × List ListenerEffect
unfolding listener_round
listener_in zero rs a = (a, [])
listener_in (suc fuel) rs a = elim (accept rs) [
  | none ↦ (a, [])
  | some r ↦
      let (a', e) = listener_round r a in
      let (a'', es) = listener_in fuel r.rest a' in (a'', e ∷ es)
]

-- What `Mailbox::Recv` gives a worker: a message, or an error with its number.
pub data RecvAnswer : Type 0 where
  received : WorkerMessage → RecvAnswer
  recv_failed : (err : ℕ) → RecvAnswer

-- `Worker::In`: each round takes an answer. `none` is a loop that the answers do not end.
unfoldable pub worker_in : List RecvAnswer → Option (List WorkerAction)
unfolding process
worker_in [] = none
worker_in (received msg ∷ rs) = do es ← worker_in rs; some (process msg ∷ es)
worker_in (recv_failed err ∷ rs) =
    let again = worker_in rs in if err == eintr then again else some []
