-- ===== src/Poller/Cancel.antt =====
-- What `CancelTimer` takes away.
use libserverkit.Base.{
  ℕ, ◌+◌, ◌%◌, ◌^◌, ◌≤◌, ◌<◌, ◌≡◌, ◌≢◌, refl, ap, ◌∙◌, true, false, some, [], ◌∷◌, ◌++◌, arith,
  >>=_some, ltb, lt→ltb, ltb-eq-false, ==_self, ==_ne, Bool-cases, inl, inr, ◌==◌,
}
use libserverkit.Poller.{
  permanent, TimerEntry, TimerMap, Poller, insert, remove, erase_id, find_id, due, renew, renew_all,
  execute_timers, erase_at, cancel_timer, cancel_entry,
}

-- The entries before the cancelled one: their keys are not greater, and they are other timers.
abbrev pub Precede : ℕ → ℕ → TimerMap → Type 0
Precede expire id [] = Unit
Precede expire id ((j, f) ∷ m) = ((j ≤ expire) × (f.id ≢ id)) × Precede expire id m

erase_at-append :
    (e : TimerEntry) (before after : TimerMap)
    → Precede e.expire e.id before
    → erase_at e.expire e.id (before ++ (e.expire, e) ∷ after) ≡ some (before ++ after)
unfolding erase_at
erase_at-append e [] after h =
    rw (ltb-eq-false e.expire e.expire (omega arith), ==_self e.expire, ==_self e.id)
erase_at-append e ((j, f) ∷ before) after h = elim (Bool-cases (ltb j e.expire)) [
  | inl b ↦ rw (b, erase_at-append e before after h.1)
  | inr b ↦ rw (b, same b, ==_ne f.id e.id h.0.1, erase_at-append e before after h.1)
]
  where
    same : ltb j e.expire ≡ false → (j == e.expire) ≡ true
    same b = ground (arith, h.0.0)

cancel_timer_at :
    (p : Poller) (e : TimerEntry) (id : ℕ) (ts : TimerMap)
    → find_id id p.timer_ids ≡ some e
    → erase_at e.expire id p.timers ≡ some ts
    → cancel_timer id p ≡ some (record p { timers = ts; timer_ids = erase_id id p.timer_ids })
unfolding cancel_timer cancel_entry
cancel_timer_at p e id ts found erased =
    ap (λ o. cancel_entry o id p) found ∙ >>=_some _ _ erased refl

-- A timer that still stands at its entry's expire time, behind other timers whose keys are not
-- greater, is cancelled: it alone is taken away, from both maps.
pub cancel_timer_lem :
    (p : Poller) (e : TimerEntry) (before after : TimerMap)
    → find_id e.id p.timer_ids ≡ some e
    → p.timers ≡ before ++ (e.expire, e) ∷ after
    → Precede e.expire e.id before
    → cancel_timer e.id p
      ≡ some (record p { timers = before ++ after; timer_ids = erase_id e.id p.timer_ids })
cancel_timer_lem p e before after found place h =
    cancel_timer_at p e e.id (before ++ after) found
      (ap (erase_at e.expire e.id) place ∙ erase_at-append e before after h)

module _ (now max : ℕ) (a b : TimerEntry) where
  abbrev pub both : Poller
  both = record {
    timers = (a.expire, a) ∷ (b.expire, b) ∷ [];
    timer_ids = (a.id, a) ∷ (b.id, b) ∷ [];
    max_timer_id = max;
  }

  abbrev fired : Poller
  fired = record both { timers = (b.expire, b) ∷ (now + a.timeout, a) ∷ [] }

  renew_first :
      a.expire ≤ now
      → b.expire ≤ now + a.timeout
      → now + a.timeout < 2 ^ 64
      → renew now a permanent both ≡ fired
  unfolding remove insert
  renew_first h i j = rw (==_self, wrap, ltb-eq-false (now + a.timeout) b.expire (omega arith))
    where
      wrap : (now + a.timeout) % 2 ^ 64 ≡ now + a.timeout
      wrap = omega arith

  fires_first :
      a.t ≡ permanent
      → a.expire ≤ now
      → now < b.expire
      → b.expire ≤ now + a.timeout
      → now + a.timeout < 2 ^ 64
      → (execute_timers now both).0 ≡ fired
  unfolding execute_timers due renew_all
  fires_first kind h k i j =
      rw (ltb-eq-false now a.expire h, lt→ltb now b.expire k)
        (ap (λ t. renew now a t both) kind ∙ renew_first h i j)

  stale_found : a.id ≢ b.id → find_id a.id fired.timer_ids ≡ some a
  unfolding find_id
  stale_found h = rw ==_self

  stale_erased :
      a.expire < b.expire → erase_at a.expire a.id fired.timers ≡ some ((now + a.timeout, a) ∷ [])
  unfolding erase_at
  stale_erased h =
      rw (ltb-eq-false b.expire a.expire (omega arith), ==_ne b.expire a.expire (omega arith))

  -- Two timers: the permanent timer `a` has expired, `b` expires before `a` does again. After
  -- `executeTimers`, where the callback leaves the poller alone, cancelling `a` takes `b` out of
  -- `timers_` and leaves `a` there, though its entry is deleted.
  pub cancel_timer_stale :
      a.t ≡ permanent
      → a.id ≢ b.id
      → a.expire ≤ now
      → now < b.expire
      → b.expire ≤ now + a.timeout
      → now + a.timeout < 2 ^ 64
      → cancel_timer a.id (execute_timers now both).0
        ≡ some (record both { timers = (now + a.timeout, a) ∷ []; timer_ids = (b.id, b) ∷ [] })
  unfolding erase_id
  cancel_timer_stale kind other h k i j =
      ap (cancel_timer a.id) (fires_first kind h k i j)
      ∙ cancel_timer_at fired a a.id _ (stale_found other) (stale_erased (omega arith))
      ∙ ids
    where
      ids :
          some (record fired {
            timers = (now + a.timeout, a) ∷ [];
            timer_ids = erase_id a.id fired.timer_ids;
          })
          ≡ some (record both { timers = (now + a.timeout, a) ∷ []; timer_ids = (b.id, b) ∷ [] })
      ids = rw ==_self
