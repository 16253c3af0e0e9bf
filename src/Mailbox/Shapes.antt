-- ===== src/Mailbox/Shapes.antt =====
-- Where each step leads from the shapes a mailbox takes.
use libserverkit.Base.{
  ℕ, suc, ◌+◌, ◌-◌, ◌≤◌, ◌<◌, ◌≡◌, ◌≢◌, sym, ap, ◌∙◌, true, false, List, [], ◌∷◌, ◌++◌, Bytes,
  slice, slice-memcpy, memcpy, append_assoc, arith, update, ==_self, ==_ne,
}
use libserverkit.YPipe.{write, flush_cas, check_read, read}
use libserverkit.Mailbox.{send, recv_active, recv_woken, is_some}
use libserverkit.Mailbox.Invariant.{awake_box, asleep_box, ready_box}

-- A message written at the back is the last of those waiting.
slice_write :
    (values : Bytes) (front w msg : ℕ)
    → front ≤ w
    → slice (update values w msg) front (w + 1 - front) ≡ slice values front (w - front) ++ msg ∷ []
unfolding memcpy
slice_write values front w msg h =
    ap (slice (update values w msg) front) (omega arith)
    ∙ slice-memcpy values w front (w - front) (msg ∷ []) (omega arith)

-- The message at the front is the first of those waiting.
slice_read :
    (values : Bytes) (front w : ℕ)
    → front < w
    → slice values front (w - front) ≡ values front ∷ slice values (front + 1) (w - (front + 1))
unfolding slice
slice_read values front w h = ap (slice values front) step ∙ ap rest next
  where
    step : w - front ≡ suc (w - (front + 1))
    step = omega arith

    next : suc front ≡ front + 1
    next = omega arith

    rest : ℕ → List ℕ
    rest k = values front ∷ slice values k (w - (front + 1))

module _ (values : Bytes) (front w : ℕ) (received sent : List ℕ) where
  pub order_write :
      (msg : ℕ)
      → front ≤ w
      → received ++ slice values front (w - front) ≡ sent
      → received ++ slice (update values w msg) front (w + 1 - front) ≡ sent ++ msg ∷ []
  order_write msg h e =
      ap (λ xs. received ++ xs) (slice_write values front w msg h)
      ∙ sym (append_assoc received (slice values front (w - front)) (msg ∷ []))
      ∙ ap (λ xs. xs ++ msg ∷ []) e

  pub order_read :
      front < w
      → received ++ slice values front (w - front) ≡ sent
      → (received ++ values front ∷ []) ++ slice values (front + 1) (w - (front + 1)) ≡ sent
  order_read h e =
      append_assoc received (values front ∷ []) (slice values (front + 1) (w - (front + 1)))
      ∙ ap (λ xs. received ++ xs) (sym (slice_read values front w h))
      ∙ e

  pub send_awake :
      (k msg : ℕ)
      → send msg (awake_box values front k w received sent)
        ≡ awake_box (update values w msg) front k (w + 1) received (sent ++ msg ∷ [])
  unfolding send write flush_cas
  send_awake k msg = rw ==_self

  pub send_ready :
      (owed counter msg : ℕ)
      → send msg (ready_box values front w owed counter received sent)
        ≡ ready_box (update values w msg) front (w + 1) owed counter received (sent ++ msg ∷ [])
  unfolding send write flush_cas
  send_ready owed counter msg = rw ==_self

  -- A prefetched message is read.
  pub poll_prefetched :
      (k : ℕ)
      → front ≢ k
      → (recv_active (awake_box values front k w received sent)).0
        ≡ awake_box values (front + 1) k w (received ++ values front ∷ []) sent
  unfolding recv_active read check_read
  poll_prefetched k h = rw (==_ne front k h)

  -- With none prefetched the reader takes what was flushed.
  pub poll_fetches :
      front ≢ w
      → (recv_active (awake_box values front front w received sent)).0
        ≡ awake_box values (front + 1) w w (received ++ values front ∷ []) sent
  unfolding recv_active read check_read
  poll_fetches h = rw (==_self, ==_ne front w h, ==_ne w front (λ e. h (sym e)))

  pub wake_reads :
      (owed counter : ℕ)
      → front ≢ w
      → owed ≡ 0
      → (recv_woken (ready_box values front w owed counter received sent)).0
        ≡ awake_box values (front + 1) w w (received ++ values front ∷ []) sent
  unfolding recv_woken read check_read
  wake_reads owed counter h e = rw (==_self, ==_ne front w h, ==_ne w front (λ e. h (sym e)), e)

  pub wake-is_some :
      (owed counter : ℕ)
      → front ≢ w
      → is_some (recv_woken (ready_box values front w owed counter received sent)).1 ≡ true
  unfolding recv_woken read check_read
  wake-is_some owed counter h = rw (==_self, ==_ne front w h)

module _ (values : Bytes) (n : ℕ) (received sent : List ℕ) where
  -- With none flushed the reader goes to sleep.
  pub poll_sleeps :
      (recv_active (awake_box values n n n received sent)).0
      ≡ asleep_box values n n false received sent
  unfolding recv_active read check_read
  poll_sleeps = rw ==_self
