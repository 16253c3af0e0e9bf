-- ===== src/Mailbox/Steps.antt =====
-- Every step keeps the shape, so every reachable mailbox has it.
use libserverkit.Base.{
  ℕ, ◌+◌, ◌-◌, ◌≤◌, ◌≡◌, ◌≢◌, ◌⊎◌, inl, inr, refl, sym, subst, false, List, [], ◌∷◌, ◌++◌, Bytes,
  slice, arith, update,
}
use libserverkit.YPipe.{new_pipe, check_read, flush_set, write, flush_cas}
use libserverkit.Mailbox.{
  Mailbox, event_write, new_mailbox, send, store, signal, recv_active, Step, sends, stores, signals,
  polls, wakes, Reach, here, next,
}
use libserverkit.Mailbox.Invariant.{
  InOrder, awake_box, asleep_box, Shape, awake, asleep, storing, owing, signalled,
}
use libserverkit.Mailbox.Shapes.{
  order_write, order_read, send_awake, send_ready, poll_prefetched, poll_fetches, poll_sleeps,
  wake_reads,
}

module _ (dummy : ℕ) where
  poll_drained :
      (values : Bytes) (front w : ℕ) (received sent : List ℕ)
      → front ≤ w
      → InOrder (awake_box values front front w received sent)
      → (front ≡ w) ⊎ (front ≢ w)
      → Shape dummy (recv_active (awake_box values front front w received sent)).0
  poll_drained values front w received sent h e (inl p) = subst goal p sleeps
    where
      goal : ℕ → Type 0
      goal k = Shape dummy (recv_active (awake_box values front front k received sent)).0

      order : InOrder (asleep_box values front front false received sent)
      order = subst (λ k. received ++ slice values front (k - front) ≡ sent) (sym p) e

      sleeps : goal front
      sleeps =
          subst (Shape dummy) (sym (poll_sleeps values front received sent))
            (asleep values front received sent order)
  poll_drained values front w received sent h e (inr p) =
      subst (Shape dummy) (sym (poll_fetches values front w received sent p)) (
        awake values (front + 1) w w (received ++ values front ∷ []) sent (omega arith)
          (omega arith) (order_read values front w received sent (omega arith) e))

  poll-Shape :
      (values : Bytes) (front k w : ℕ) (received sent : List ℕ)
      → front ≤ k
      → k ≤ w
      → InOrder (awake_box values front k w received sent)
      → (front ≡ k) ⊎ (front ≢ k)
      → Shape dummy (recv_active (awake_box values front k w received sent)).0
  poll-Shape values front k w received sent h i e (inl p) =
      subst goal p (poll_drained values front w received sent (omega arith) e cases)
    where
      goal : ℕ → Type 0
      goal j = Shape dummy (recv_active (awake_box values front j w received sent)).0

      cases : (front ≡ w) ⊎ (front ≢ w)
      cases = ground arith
  poll-Shape values front k w received sent h i e (inr p) =
      subst (Shape dummy) (sym (poll_prefetched values front w received sent k p)) (
        awake values (front + 1) k w (received ++ values front ∷ []) sent (omega arith)
          (omega arith) (order_read values front w received sent (omega arith) e))

  -- A message for a sleeping reader waits for the store.
  asleep-Shape :
      (values : Bytes) (n msg : ℕ) (received sent : List ℕ)
      → InOrder (asleep_box values n n false received sent)
      → Shape dummy (send msg (asleep_box values n n false received sent))
  unfolding send write flush_cas
  asleep-Shape values n msg received sent e =
      storing (update values n msg) n (n + 1) received (sent ++ msg ∷ []) (omega arith)
        (order_write values n n received sent msg (omega arith) e)

  pub Step-Shape : {m t : Mailbox} → Shape dummy m → Step dummy m t → Shape dummy t
  unfolding store flush_set signal
  Step-Shape (awake values front k w received sent h i e) (sends _ msg _) =
      subst (Shape dummy) (sym (send_awake values front w received sent k msg)) (
        awake (update values w msg) front k (w + 1) received (sent ++ msg ∷ []) h (omega arith)
          (order_write values front w received sent msg (omega arith) e))
  Step-Shape (awake values front k w received sent h i e) (stores _ b) = cc
  Step-Shape (awake values front k w received sent h i e) (signals _ b) = absurd (omega arith)
  Step-Shape (awake values front k w received sent h i e) (polls _ b) =
      poll-Shape values front k w received sent h i e (ground arith)
  Step-Shape (awake values front k w received sent h i e) (wakes _ b c) = absurd (omega arith)
  Step-Shape (asleep values n received sent e) (sends _ msg _) =
      asleep-Shape values n msg received sent e
  Step-Shape (asleep values n received sent e) (stores _ b) = cc
  Step-Shape (asleep values n received sent e) (signals _ b) = absurd (omega arith)
  Step-Shape (asleep values n received sent e) (polls _ b) = cc
  Step-Shape (asleep values n received sent e) (wakes _ b c) = absurd (omega arith)
  Step-Shape (storing values n b received sent h e) (sends _ msg c) = cc
  Step-Shape (storing values n b received sent h e) (stores _ c) =
      owing values n b received sent h e
  Step-Shape (storing values n b received sent h e) (signals _ c) = absurd (omega arith)
  Step-Shape (storing values n b received sent h e) (polls _ c) = cc
  Step-Shape (storing values n b received sent h e) (wakes _ c d) = absurd (omega arith)
  Step-Shape (owing values front w received sent h e) (sends _ msg _) =
      subst (Shape dummy) (sym (send_ready values front w received sent 1 0 msg)) (
        owing (update values w msg) front (w + 1) received (sent ++ msg ∷ []) (omega arith)
          (order_write values front w received sent msg (omega arith) e))
  Step-Shape (owing values front w received sent h e) (stores _ b) = cc
  Step-Shape (owing values front w received sent h e) (signals _ b) =
      signalled values front w received sent h e
  Step-Shape (owing values front w received sent h e) (polls _ b) = cc
  Step-Shape (owing values front w received sent h e) (wakes _ b c) = absurd (omega arith)
  Step-Shape (signalled values front w received sent h e) (sends _ msg _) =
      subst (Shape dummy)
        (sym (send_ready values front w received sent 0 (event_write 0 dummy) msg))
        (signalled (update values w msg) front (w + 1) received (sent ++ msg ∷ []) (omega arith)
          (order_write values front w received sent msg (omega arith) e))
  Step-Shape (signalled values front w received sent h e) (stores _ b) = cc
  Step-Shape (signalled values front w received sent h e) (signals _ b) = absurd (omega arith)
  Step-Shape (signalled values front w received sent h e) (polls _ b) = cc
  Step-Shape (signalled values front w received sent h e) (wakes _ b c) =
      subst (Shape dummy)
        (sym (wake_reads values front w received sent 0 (event_write 0 dummy) (omega arith) refl))
        (awake values (front + 1) w w (received ++ values front ∷ []) sent (omega arith)
          (omega arith) (order_read values front w received sent h e))

  pub Reach-Shape :
      (values : Bytes) {m : Mailbox} → Reach dummy (new_mailbox values) m → Shape dummy m
  unfolding new_mailbox new_pipe check_read slice
  Reach-Shape values here = asleep values 0 [] [] refl
  Reach-Shape values (next r s) = Step-Shape (Reach-Shape values r) s
