-- ===== src/Epoll/Silence.antt =====
-- An entry that was retired is not called through again in the loop over the events.
use libserverkit.Base.{
  ℕ, suc, ◌<◌, ◌≡◌, refl, ap, ◌∙◌, sym, subst, Bool, true, false, inl, inr, List, [], ◌∷◌, ◌++◌,
  ◌==◌, if◌then◌else◌, arith, has, has-append, Bool-cases, ==_ne, eq_of_==, append_assoc,
  append-nil, ◌≢◌,
}
use libserverkit.Epoll.{
  Epoll, EpollEntry, PollerCall, adds_event, dels_handle, marks_handle, call_poller, call_all, add,
  del, mark_writeable, Dispatch, Dispatched, Handlers, Ready, is_valid, dispatch, dispatch_if,
  dispatch_ready, dispatch_all,
}
use libserverkit.Epoll.Calls.{
  add-brk, add-entry, del-brk, del-invalid, del_self, mark_writeable-same,
}

-- The entry was made, and its descriptor is invalid.
abbrev pub IsGone : ℕ → Epoll → Type 0
IsGone a s = (a < s.brk) × (is_valid (s.entry a).fd ≡ false)

-- The handles, other than `NULL`, that `Del` is called with.
abbrev pub deleted_by : List PollerCall → List ℕ
deleted_by [] = []
deleted_by (adds_event fd event added ∷ cs) = deleted_by cs
deleted_by (dels_handle h rc ∷ cs) = if h == 0 then deleted_by cs else h ∷ deleted_by cs
deleted_by (marks_handle h ∷ cs) = deleted_by cs

-- `Del` is called with handles that `Add` gave before.
abbrev pub Knows : ℕ → List PollerCall → Type 0
Knows brk [] = Unit
Knows brk (adds_event fd event added ∷ cs) = Knows (suc brk) cs
Knows brk (dels_handle h rc ∷ cs) = (h < brk) × Knows brk cs
Knows brk (marks_handle h ∷ cs) = Knows brk cs

call_poller-IsGone : (c : PollerCall) (a : ℕ) (s : Epoll) → IsGone a s → IsGone a (call_poller c s)
unfolding call_poller
call_poller-IsGone (adds_event fd event added) a s (small, gone) = (
  omega (arith, add-brk fd event added s),
  ap (λ (e : EpollEntry). is_valid e.fd) (add-entry fd event added s a small) ∙ gone,
)
call_poller-IsGone (dels_handle h rc) a s (small, gone) =
    (omega (arith, del-brk h rc s), del-invalid h rc a s gone)
call_poller-IsGone (marks_handle h) a s (small, gone) = (
  omega (arith, (mark_writeable-same h a s).0),
  ap (λ (e : EpollEntry). is_valid e.fd) (mark_writeable-same h a s).1 ∙ gone,
)

call_all-IsGone : (cs : List PollerCall) (a : ℕ) (s : Epoll) → IsGone a s → IsGone a (call_all cs s)
unfolding call_all
call_all-IsGone [] a s g = g
call_all-IsGone (c ∷ cs) a s g = call_all-IsGone cs a (call_poller c s) (call_poller-IsGone c a s g)

-- What the calls delete is gone after them.
call_all-deletes :
    (cs : List PollerCall) (a : ℕ) (s : Epoll)
    → Knows s.brk cs
    → has a (deleted_by cs) ≡ true
    → IsGone a (call_all cs s)
unfolding call_all call_poller
call_all-deletes [] a s k i = cc
call_all-deletes (adds_event fd event added ∷ cs) a s k i =
    call_all-deletes cs a (add fd event added s).1
      (subst (λ n. Knows n cs) (sym (add-brk fd event added s)) k) i
call_all-deletes (dels_handle h rc ∷ cs) a s k i =
    let rest =
      call_all-deletes cs a (del h rc s).1 (subst (λ n. Knows n cs) (sym (del-brk h rc s)) k.1) in
    elim (Bool-cases (h == 0)) [
      | inl nothing ↦ rest (rw nothing at i)
      | inr some_entry ↦ elim (Bool-cases (a == h)) [
        | inl same ↦ call_all-IsGone cs a (del h rc s).1 (
          omega (arith, del-brk h rc s, k.0, eq_of_== a h same),
          subst (λ b. is_valid ((del h rc s).1.entry b).fd ≡ false) (sym (eq_of_== a h same))
              (del_self h rc s some_entry),
        )
        | inr other ↦ rest (rw (some_entry, other) at i)
      ]
    ]
call_all-deletes (marks_handle h ∷ cs) a s k i =
    call_all-deletes cs a (mark_writeable h s)
      (subst (λ n. Knows n cs) (sym (mark_writeable-same h a s).0) k) i

abbrev pub handles : List Dispatched → List ℕ
handles [] = []
handles (d ∷ ds) = d.through.handle ∷ handles ds

abbrev pub deleted_in : List Dispatched → List ℕ
deleted_in [] = []
deleted_in (d ∷ ds) = deleted_by d.calls ++ deleted_in ds

-- An entry for which a handler calls `Del` is not called through later on.
abbrev pub IsQuiet : List Dispatched → Type 0
IsQuiet [] = Unit
IsQuiet (d ∷ ds) =
    ((a : ℕ) → has a (deleted_by d.calls) ≡ true → has a (handles ds) ≡ false) × IsQuiet ds

handles-append : (ds es : List Dispatched) → handles (ds ++ es) ≡ handles ds ++ handles es
handles-append [] es = refl
handles-append (d ∷ ds) es = ap (◌∷◌ d.through.handle) (handles-append ds es)

deleted_in-append :
    (ds es : List Dispatched) → deleted_in (ds ++ es) ≡ deleted_in ds ++ deleted_in es
deleted_in-append [] es = refl
deleted_in-append (d ∷ ds) es =
    ap (λ xs. deleted_by d.calls ++ xs) (deleted_in-append ds es)
    ∙ sym (append_assoc (deleted_by d.calls) (deleted_in ds) (deleted_in es))

IsQuiet-append :
    (ds es : List Dispatched)
    → IsQuiet ds
    → IsQuiet es
    → ((a : ℕ) → has a (deleted_in ds) ≡ true → has a (handles es) ≡ false)
    → IsQuiet (ds ++ es)
IsQuiet-append [] es p q r = q
IsQuiet-append (d ∷ ds) es p q r = (
  λ a i.
      let later = r a (has-append a (deleted_by d.calls) (deleted_in ds) ∙ rw i refl) in
      ap (has a) (handles-append ds es)
      ∙ has-append a (handles ds) (handles es)
      ∙ rw (p.0 a i, later) refl,
  IsQuiet-append ds es p.1 q
      (λ a i. r a (ground (arith, has-append a (deleted_by d.calls) (deleted_in ds)))),
)

-- A part of the loop, from `s` to `t` with the dispatches `ds`.
record Part (s t : Epoll) (ds : List Dispatched) : Type 0 where
  quiet : IsQuiet ds
  deletes : (a : ℕ) → has a (deleted_in ds) ≡ true → IsGone a t
  keeps : (a : ℕ) → IsGone a s → IsGone a t × (has a (handles ds) ≡ false)

nothing_done : (s : Epoll) → Part s s []
nothing_done s = record { quiet = tt; deletes = λ a i. cc; keeps = λ a g. (g, refl) }

Part-append :
    (s t u : Epoll) (ds es : List Dispatched) → Part s t ds → Part t u es → Part s u (ds ++ es)
Part-append s t u ds es p q = record {
  quiet = IsQuiet-append ds es p.quiet q.quiet (λ a i. (q.keeps a (p.deletes a i)).1);
  deletes = λ a i. elim (Bool-cases (has a (deleted_in ds))) [
    | inl early ↦ (q.keeps a (p.deletes a early)).0
    | inr late ↦ q.deletes a (
        ground (
          arith,
          ap (has a) (deleted_in-append ds es),
          has-append a (deleted_in ds) (deleted_in es),
        ))
  ];
  keeps = λ a g.
      let (g', quiet) = p.keeps a g in
      let (g'', quiet') = q.keeps a g' in
      (
        g'',
        ap (has a) (handles-append ds es)
            ∙ has-append a (handles ds) (handles es)
            ∙ rw (quiet, quiet') refl,
      );
}

module _ (handlers : Handlers)
    (know : (d : Dispatch) (s : Epoll) → Knows s.brk (handlers d s)) where
  dispatch-Part :
      (h event : ℕ) (is_out : Bool) (s : Epoll)
      → is_valid (s.entry h).fd ≡ true
      → Part s (dispatch handlers h event is_out s).0 (dispatch handlers h event is_out s).1
  unfolding dispatch
  dispatch-Part h event is_out s valid =
      let d : Dispatch = record { handle = h; event = event; is_out = is_out } in
      let cs = handlers d s in
      record {
        quiet = (λ a i. refl, tt);
        deletes = λ a i.
            call_all-deletes cs a s (know d s) (ap (has a) (sym (append-nil (deleted_by cs))) ∙ i);
        keeps = λ a g. (call_all-IsGone cs a s g, rw (==_ne a h (apart a g.1)) refl);
      }
    where
      apart : (a : ℕ) → is_valid (s.entry a).fd ≡ false → a ≢ h
      apart a gone same = absurd (clash (ap (λ b. is_valid (s.entry b).fd) (sym same) ∙ gone))
        where
          clash : is_valid (s.entry h).fd ≡ false → ⊥
          clash e = ground (arith, valid)

  dispatch_if-Part :
      (flag : Bool) (h event : ℕ) (is_out : Bool) (s : Epoll)
      → Part s
          (dispatch_if handlers flag h event is_out s).0
          (dispatch_if handlers flag h event is_out s).1
  unfolding dispatch_if
  dispatch_if-Part false h event is_out s = elim (Bool-cases (is_valid (s.entry h).fd)) [
    | inr gone ↦ rw gone (nothing_done s)
    | inl valid ↦ rw valid (nothing_done s)
  ]
  dispatch_if-Part true h event is_out s = elim (Bool-cases (is_valid (s.entry h).fd)) [
    | inr gone ↦ rw gone (nothing_done s)
    | inl valid ↦ rw valid (dispatch-Part h event is_out s valid)
  ]

  dispatch_ready-Part :
      (r : Ready) (s : Epoll)
      → Part s (dispatch_ready handlers r s).0 (dispatch_ready handlers r s).1
  unfolding dispatch_ready
  dispatch_ready-Part r s =
      let h = r.handle in
      let event = (s.entry h).event in
      let a = dispatch_if handlers r.has_error h event false s in
      let b = dispatch_if handlers r.has_in h event false a.0 in
      let c = dispatch_if handlers r.has_out h event true b.0 in
      Part-append s a.0 c.0 a.1 (b.1 ++ c.1) (dispatch_if-Part r.has_error h event false s) (
        Part-append a.0 b.0 c.0 b.1 c.1 (dispatch_if-Part r.has_in h event false a.0)
          (dispatch_if-Part r.has_out h event true b.0))

  dispatch_all-Part :
      (rs : List Ready) (s : Epoll)
      → Part s (dispatch_all handlers rs s).0 (dispatch_all handlers rs s).1
  unfolding dispatch_all
  dispatch_all-Part [] s = nothing_done s
  dispatch_all-Part (r ∷ rs) s =
      let a = dispatch_ready handlers r s in
      let b = dispatch_all handlers rs a.0 in
      Part-append s a.0 b.0 a.1 b.1 (dispatch_ready-Part r s) (dispatch_all-Part rs a.0)

  -- Whatever the handlers do, as long as they call `Del` only with handles that `Add` gave before: in
  -- the loop of `Poll` over the events that `epoll_wait` reported, no handler is called through an
  -- entry after `Del` was called with it, be it by that handler or another, in this loop or before.
  pub dispatch_all-IsQuiet :
      (rs : List Ready) (s : Epoll)
      → IsQuiet (dispatch_all handlers rs s).1
        × ((a : ℕ) → IsGone a s → has a (handles (dispatch_all handlers rs s).1) ≡ false)
  dispatch_all-IsQuiet rs s = let p = dispatch_all-Part rs s in (p.quiet, λ a g. (p.keeps a g).1)
