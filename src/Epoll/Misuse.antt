-- ===== src/Epoll/Misuse.antt =====
-- What comes of a `Del` that is repeated, and of one that follows `MarkWriteable`.
use libserverkit.Base.{
  ℕ, ◌≡◌, refl, ap, ◌∙◌, subst, true, false, none, some, List, [], ◌∷◌, ◌++◌, ◌==◌, arith, has,
  has-append, IsNodup, IsNodup-right, ==_self, append_assoc,
}
use libserverkit.BufferList.{Pool, destroy}
use libserverkit.Socket.{
  Socket, SocketEffect, on_connect, on_read, on_write, on_error, adds, dels, marks_writeable,
  closes, close, destroy_socket,
}
use libserverkit.Epoll.{
  Epoll, PollerCall, dels_handle, marks_handle, call_poller, call_all, del, mark_writeable,
  Dispatch, Dispatched, poll, writeable_loop, dispatch, process_retired, set_entry,
}

-- The calls of the poller among the effects of a socket, without those of `Add`; `epoll_ctl` gives 0.
abbrev pub dels_of : List SocketEffect → List PollerCall
dels_of [] = []
dels_of (dels h ∷ es) = dels_handle h 0 ∷ dels_of es
dels_of (marks_writeable h ∷ es) = marks_handle h ∷ dels_of es
dels_of (on_connect e ∷ es) = dels_of es
dels_of (on_read ∷ es) = dels_of es
dels_of (on_write ∷ es) = dels_of es
dels_of (on_error e ∷ es) = dels_of es
dels_of (adds fd ∷ es) = dels_of es
dels_of (closes fd ∷ es) = dels_of es

twice : (h : ℕ) (us vs : List ℕ) → IsNodup (us ++ (vs ++ h ∷ h ∷ [])) → ⊥
twice h us vs n =
    let pair = IsNodup-right vs (h ∷ h ∷ []) (IsNodup-right us (vs ++ h ∷ h ∷ []) n) in
    ground (arith, pair.0, ==_self h)

-- `Del` and `MarkWriteable` with a handle that is not `NULL`.
abbrev deleted_state : ℕ → Epoll → Epoll
deleted_state h s = record s {
  entry = set_entry s.entry h (record (s.entry h) { fd = none });
  retired_list = s.retired_list ++ h ∷ [];
}

del_some : (h rc : ℕ) (s : Epoll) → (h == 0) ≡ false → del h rc s ≡ (rc, deleted_state h s)
unfolding del
del_some h rc s e = rw e refl

mark_some :
    (h : ℕ) (s : Epoll)
    → (h == 0) ≡ false
    → mark_writeable h s ≡ record s { writeable_list = s.writeable_list ++ h ∷ [] }
unfolding mark_writeable
mark_some h s e = rw e refl

del_del :
    (h : ℕ) (p : Epoll)
    → (h == 0) ≡ false
    → (process_retired (call_all (dels_handle h 0 ∷ dels_handle h 0 ∷ []) p)).deleted
      ≡ p.deleted ++ (p.retired_list ++ h ∷ h ∷ [])
unfolding process_retired call_all call_poller
del_del h p e =
    let after = λ (s : Epoll). s.deleted ++ s.retired_list in
    ap (λ (s : Epoll). after (del h 0 s).1) (ap (λ (r : ℕ × Epoll). r.1) (del_some h 0 p e))
    ∙ ap (λ (r : ℕ × Epoll). after r.1) (del_some h 0 (deleted_state h p) e)
    ∙ ap (λ xs. p.deleted ++ xs) (append_assoc p.retired_list (h ∷ []) (h ∷ []))

-- For a socket that has a handle, whose buffers can be given back: `~Socket` calls `Del` with it, and
-- then `close`, which does so again; so the poller, when it next deletes what was retired, deletes the
-- entry twice.
pub destroy_socket_twice :
    (fuel : ℕ) (s t u : Pool) (k : Socket) (p : Epoll)
    → (k.handle == 0) ≡ false
    → destroy fuel s k.write_list ≡ some t
    → destroy fuel t k.read_list ≡ some u
    → (es : List SocketEffect) × (destroy_socket fuel s k ≡ some (u, es))
      × (¬ IsNodup (process_retired (call_all (dels_of es) p)).deleted)
unfolding destroy_socket close
destroy_socket_twice fuel s t u k p some_entry e f = (
  dels k.handle ∷ dels k.handle ∷ closes k.fd ∷ [],
  rw (e, f) refl,
  λ n. twice k.handle p.deleted p.retired_list (subst IsNodup (del_del k.handle p some_entry) n),
)

-- In a poller with no entry marked: an entry is marked as writeable, and then `Del` is called with it,
-- before the next `Poll`. That `Poll` calls `Out` through it all the same, first of all, and deletes
-- the entry only if `epoll_wait` reports an event.
pub retired_written :
    (h rc : ℕ) (s : Epoll)
    → (h == 0) ≡ false
    → s.writeable_list ≡ []
    → (t : Epoll) × (d : Dispatched) × (poll
          (λ e u. [])
          2
          (some [])
          (del h rc (mark_writeable h s)).1
        ≡ some (0, t, d ∷ []))
      × (d.through ≡ record { handle = h; event = (s.entry h).event; is_out = true })
      × (has h t.retired_list ≡ true)
unfolding poll writeable_loop dispatch call_all
retired_written h rc s some_entry none_marked =
    let with = λ (xs : List ℕ). deleted_state h (record s { writeable_list = xs }) in
    let d : Dispatch = record { handle = h; event = (s.entry h).event; is_out = true } in
    let state =
      ap (λ (u : Epoll). (del h rc u).1) (mark_some h s some_entry)
      ∙ ap (λ (r : ℕ × Epoll). r.1)
          (del_some h rc (record s { writeable_list = s.writeable_list ++ h ∷ [] }) some_entry)
      ∙ ap (λ xs. with (xs ++ h ∷ [])) none_marked in
    (
      with [],
      record { through = d; calls = [] },
      ap (poll (λ e u. []) 2 (some [])) state ∙ rw (==_self h) refl,
      refl,
      ground (arith, has-append h s.retired_list (h ∷ []), ==_self h),
    )
