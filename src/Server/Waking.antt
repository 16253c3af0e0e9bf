-- ===== src/Server/Waking.antt =====
-- core/worker.cc, `In`: what a worker does when its mailbox wakes it.
use libserverkit.Base.{ℕ, ◌≡◌, ◌≢◌, refl, some, List, [], ◌∷◌, ◌++◌, ==_ne, >>=_some}
use libserverkit.Net.{eintr}
use libserverkit.Server.{
  WorkerMessage, WorkerAction, process, RecvAnswer, received, recv_failed, worker_in,
}

-- The answers that bring some messages.
abbrev pub bring : List WorkerMessage → List RecvAnswer
bring [] = []
bring (msg ∷ ms) = received msg ∷ bring ms

abbrev pub processed : List WorkerMessage → List WorkerAction
processed [] = []
processed (msg ∷ ms) = process msg ∷ processed ms

-- A worker that is woken processes all the messages that `Recv` gives it, in their order, also behind
-- an interrupt, and stops at the first error of another kind.
pub worker_in_lem :
    (ms more : List WorkerMessage) (err : ℕ) (rest : List RecvAnswer)
    → err ≢ eintr
    → worker_in (bring ms ++ recv_failed eintr ∷ (bring more ++ recv_failed err ∷ rest))
      ≡ some (processed (ms ++ more))
unfolding worker_in
worker_in_lem [] [] err rest n = rw (==_ne err eintr n) refl
worker_in_lem [] (msg ∷ more) err rest n = >>=_some _ _ (worker_in_lem [] more err rest n) refl
worker_in_lem (msg ∷ ms) more err rest n = >>=_some _ _ (worker_in_lem ms more err rest n) refl
