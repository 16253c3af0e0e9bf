-- ===== src/Server/Sessions.antt =====
-- What the loop of `Listener::In` hands on, and what it reports.
use libserverkit.Base.{
  ℕ, zero, suc, ◌≤◌, ◌<◌, ◌≡◌, refl, ap, ◌∙◌, true, false, inl, inr, ◌||◌, some, List, [], ◌∷◌,
  ◌==◌, if◌then◌else◌, arith, length, Bool-cases,
}
use libserverkit.Net.{k_ok, k_error, eintr, eagain, ewouldblock}
use libserverkit.Net.Calls.{AcceptAnswer, accepted, accept_failed, accept, Accepted}
use libserverkit.Server.{
  Application, WorkerMessage, accept_message, select_worker, accept_new_session, ListenerEffect,
  hands, on_error, listener_round, listener_in,
}
use libserverkit.Server.Turns.{selections, in_turn, selections_lem}

-- The session that comes of each descriptor: that of the descriptor, or of -1 where it could not be
-- made non-blocking.
abbrev pub sessions : List AcceptAnswer → List ℕ
sessions [] = []
sessions (accepted fd ret ∷ rs) = (if ret == k_ok then fd else k_error) ∷ sessions rs
sessions (accept_failed e ∷ rs) = sessions rs

-- The errors that the handler is to be told of: all but an interrupt.
abbrev pub errors : List AcceptAnswer → List ℕ
errors [] = []
errors (accepted fd ret ∷ rs) = errors rs
errors (accept_failed e ∷ rs) = if e == eintr then errors rs else e ∷ errors rs

-- Each session with its worker, in order.
abbrev pub dealt : List ℕ → List ℕ → List WorkerMessage
dealt [] ss = []
dealt (w ∷ ws) [] = []
dealt (w ∷ ws) (s ∷ ss) = accept_message w s ∷ dealt ws ss

abbrev pub handed : List ListenerEffect → List WorkerMessage
handed [] = []
handed (hands m ∷ es) = m ∷ handed es
handed (on_error e ∷ es) = handed es

abbrev pub reported : List ListenerEffect → List ℕ
reported [] = []
reported (hands m ∷ es) = reported es
reported (on_error e ∷ es) = e ∷ reported es

-- No call of `accept` fails with the number 0.
abbrev pub HasErrors : List AcceptAnswer → Type 0
HasErrors [] = Unit
HasErrors (accepted fd ret ∷ rs) = HasErrors rs
HasErrors (accept_failed e ∷ rs) = ((e == k_ok) ≡ false) × HasErrors rs

-- What a round does once `Accept` returns.
listener_in-some :
    (fuel : ℕ) (rs : List AcceptAnswer) (a : Application) (r : Accepted)
    → accept rs ≡ some r
    → (listener_in (suc fuel) rs a).1
      ≡ (listener_round r a).1 ∷ (listener_in fuel r.rest (listener_round r a).0).1
unfolding listener_in
listener_in-some fuel rs a r h = rw (h, listener_in)

-- A round that begins with an accepted descriptor.
accepted_round :
    (fuel fd ret : ℕ) (rs : List AcceptAnswer) (a : Application)
    → (listener_in (suc fuel) (accepted fd ret ∷ rs) a).1
      ≡ hands (accept_message (select_worker a).1 (if ret == k_ok then fd else k_error))
        ∷ (listener_in fuel rs (select_worker a).0).1
unfolding listener_round accept_new_session accept
accepted_round fuel fd ret rs a =
    let r : Accepted = record {
      result = if ret == k_ok then fd else k_error;
      err = k_ok;
      rest = rs;
    } in
    let returns : accept (accepted fd ret ∷ rs) ≡ some r = ground arith in
    listener_in-some fuel (accepted fd ret ∷ rs) a r returns

-- A round that begins with a failed call of `accept`.
failed_round :
    (fuel n : ℕ) (rs : List AcceptAnswer) (a : Application)
    → (n == k_ok) ≡ false
    → (n == eintr) ≡ false
    → (listener_in (suc fuel) (accept_failed n ∷ rs) a).1 ≡ on_error n ∷ (listener_in fuel rs a).1
unfolding listener_round accept
failed_round fuel n rs a e no_intr =
    let blocks = (n == eagain) || (n == ewouldblock) in
    let r : Accepted = record { result = if blocks then k_ok else k_error; err = n; rest = rs } in
    let returns : accept (accept_failed n ∷ rs) ≡ some r = ground arith in
    listener_in-some fuel (accept_failed n ∷ rs) a r returns ∙ rw e

interrupted_round :
    (fuel n : ℕ) (rs : List AcceptAnswer) (a : Application)
    → (n == eintr) ≡ true
    → listener_in (suc fuel) (accept_failed n ∷ rs) a ≡ listener_in (suc fuel) rs a
unfolding listener_in accept
interrupted_round fuel n rs a intr =
    let again : accept (accept_failed n ∷ rs) ≡ accept rs = ground arith in rw (again, listener_in)

listener_in_nothing :
    (fuel : ℕ) (a : Application)
    → (handed (listener_in fuel [] a).1 ≡ []) × (reported (listener_in fuel [] a).1 ≡ [])
unfolding listener_in accept
listener_in_nothing zero a = (refl, refl)
listener_in_nothing (suc fuel) a = (refl, refl)

-- What is handed on, by the workers that `selectWorker` selects.
listener_in-selections :
    (fuel : ℕ) (rs : List AcceptAnswer) (a : Application)
    → length rs ≤ fuel
    → HasErrors rs
    → (handed (listener_in fuel rs a).1 ≡ dealt (selections (length (sessions rs)) a) (sessions rs))
      × (reported (listener_in fuel rs a).1 ≡ errors rs)
listener_in-selections zero [] a h e = listener_in_nothing zero a
listener_in-selections zero (r ∷ rs) a h e = absurd (omega arith)
listener_in-selections (suc fuel) [] a h e = listener_in_nothing (suc fuel) a
listener_in-selections (suc fuel) (accepted fd ret ∷ rs) a h e =
    let (p, q) = listener_in-selections fuel rs (select_worker a).0 (omega arith) e in
    rw (accepted_round fuel fd ret rs a)
      (ap (◌∷◌ (accept_message (select_worker a).1 (if ret == k_ok then fd else k_error))) p, q)
listener_in-selections (suc fuel) (accept_failed n ∷ rs) a h e = elim (Bool-cases (n == eintr)) [
  | inl intr ↦
      rw (interrupted_round fuel n rs a intr, intr)
        (listener_in-selections (suc fuel) rs a (omega arith) e.1)
  | inr other ↦
      let (p, q) = listener_in-selections fuel rs a (omega arith) e.1 in
      rw (failed_round fuel n rs a e.0 other, other) (p, ap (◌∷◌ n) q)
]

-- While there are workers, and the last one selected is one of them; for a system whose errors are not
-- 0, and as many rounds as answers or more: `In` hands a session for every descriptor that came, in
-- order, one of -1 where `setNonBlocking` failed; the first goes to the worker behind the last one
-- selected, each other to the worker behind the one before, and behind the last worker comes the first;
-- and `In` tells the handler of every error but an interrupt, also of `EAGAIN`, in order.
pub listener_in-effects :
    (fuel : ℕ) (rs : List AcceptAnswer) (a : Application)
    → a.index < a.workers
    → length rs ≤ fuel
    → HasErrors rs
    → (handed (listener_in fuel rs a).1
        ≡ dealt (in_turn (length (sessions rs)) a.workers a.index) (sessions rs))
      × (reported (listener_in fuel rs a).1 ≡ errors rs)
listener_in-effects fuel rs a h l e =
    let (p, q) = listener_in-selections fuel rs a l e in
    (p ∙ ap (λ ws. dealt ws (sessions rs)) (selections_lem (length (sessions rs)) a h), q)
