-- ===== src/Epoll.antt =====
-- core/epoll.h and core/epoll.cc: the entries that stand for registered descriptors, and the dispatch
-- of events. An entry is an address, and `NULL` is 0. What `epoll_ctl` and `epoll_wait` give are
-- arguments; what a handler does to the poller while it runs is a list of calls.
pub mod Calls
pub mod Silence
pub mod Retire
pub mod Misuse
use libserverkit.Base.{
  ℕ, zero, suc, ◌+◌, Bool, true, false, Option, none, some, List, [], ◌∷◌, ◌++◌, length, drop, ◌==◌,
  if◌then◌else◌, ltb, ◌||◌, ◌>>=◌,
}
use libserverkit.Net.{k_ok, k_error}

-- core/config.h
abbrev pub incr_poll_size : ℕ
incr_poll_size = 1024

-- `fd` is `none` for `kInvalidFd`.
pub record EpollEntry : Type 0 where
  pub fd : Option ℕ
  pub event : ℕ

-- The entries by address, and the next address that was never used; `deleted` lists the entries that
-- `delete` was called with.
pub record Epoll : Type 0 where
  pub size : ℕ
  pub entry : ℕ → EpollEntry
  pub brk : ℕ
  pub retired_list : List ℕ
  pub writeable_list : List ℕ
  pub deleted : List ℕ

-- `Epoll()` and `Init`
unfoldable pub new_epoll : ℕ → Epoll
new_epoll size = record {
  size = size;
  entry = λ a. record { fd = none; event = 0 };
  brk = 1;
  retired_list = [];
  writeable_list = [];
  deleted = [];
}

abbrev pub set_entry : (ℕ → EpollEntry) → ℕ → EpollEntry → ℕ → EpollEntry
set_entry f a e b = if b == a then e else f b

-- `Add`: the handle. `added` tells whether `epoll_ctl` gave 0. Of a deleted entry nothing is kept.
unfoldable pub add : ℕ → ℕ → Bool → Epoll → ℕ × Epoll
add fd event added s =
    let made = record s {
      entry = set_entry s.entry s.brk (record { fd = some fd; event = event });
      brk = suc s.brk;
    } in
    if added
    then (s.brk, if ltb s.size fd then record made { size = fd + incr_poll_size } else made)
    else (0, record s { brk = suc s.brk; deleted = s.deleted ++ s.brk ∷ [] })

-- `Del`, where `epoll_ctl` gives `rc`.
unfoldable pub del : ℕ → ℕ → Epoll → ℕ × Epoll
del handle rc s = if handle == 0 then (k_ok, s) else (
  rc,
  record s {
    entry = set_entry s.entry handle (record (s.entry handle) { fd = none });
    retired_list = s.retired_list ++ handle ∷ [];
  },
)

-- `MarkWriteable`
unfoldable pub mark_writeable : ℕ → Epoll → Epoll
mark_writeable handle s =
    if handle == 0 then s else record s { writeable_list = s.writeable_list ++ handle ∷ [] }

-- `processRetired`
unfoldable pub process_retired : Epoll → Epoll
process_retired s = record s { deleted = s.deleted ++ s.retired_list; retired_list = [] }

-- What a handler asks of the poller.
pub data PollerCall : Type 0 where
  adds_event : (fd event : ℕ) → Bool → PollerCall
  dels_handle : (handle rc : ℕ) → PollerCall
  marks_handle : (handle : ℕ) → PollerCall

unfoldable pub call_poller : PollerCall → Epoll → Epoll
unfolding add del mark_writeable
call_poller (adds_event fd event added) s = (add fd event added s).1
call_poller (dels_handle handle rc) s = (del handle rc s).1
call_poller (marks_handle handle) s = mark_writeable handle s

unfoldable pub call_all : List PollerCall → Epoll → Epoll
unfolding call_poller
call_all [] s = s
call_all (c ∷ cs) s = call_all cs (call_poller c s)

-- A call of `In` or `Out` through an entry.
pub record Dispatch : Type 0 where
  pub handle : ℕ
  pub event : ℕ
  pub is_out : Bool

-- With what its handler asked for meanwhile.
pub record Dispatched : Type 0 where
  pub through : Dispatch
  pub calls : List PollerCall

-- What the event's handler asks for.
abbrev pub Handlers : Type 0
Handlers = Dispatch → Epoll → List PollerCall

-- What `epoll_wait` reports of an entry.
pub record Ready : Type 0 where
  pub handle : ℕ
  pub has_error : Bool
  pub has_in : Bool
  pub has_out : Bool

abbrev pub is_valid : Option ℕ → Bool
is_valid none = false
is_valid (some fd) = true

module _ (handlers : Handlers) where
  unfoldable pub dispatch : ℕ → ℕ → Bool → Epoll → Epoll × List Dispatched
  unfolding call_all
  dispatch handle event is_out s =
      let d : Dispatch = record { handle = handle; event = event; is_out = is_out } in
      (call_all (handlers d s) s, record { through = d; calls = handlers d s } ∷ [])

  -- One of the three tests in the loop over the events: the entry's descriptor, then the flag.
  unfoldable pub dispatch_if : Bool → ℕ → ℕ → Bool → Epoll → Epoll × List Dispatched
  unfolding dispatch
  dispatch_if flag handle event is_out s =
      if is_valid (s.entry handle).fd
      then (if flag then dispatch handle event is_out s else (s, []))
      else (s, [])

  -- The loop's body. At a `continue` the entry is invalid, so that the later tests fail as well.
  unfoldable pub dispatch_ready : Ready → Epoll → Epoll × List Dispatched
  unfolding dispatch_if
  dispatch_ready r s =
      let event = (s.entry r.handle).event in
      let (s₁, ds₁) = dispatch_if r.has_error r.handle event false s in
      let (s₂, ds₂) = dispatch_if r.has_in r.handle event false s₁ in
      let (s₃, ds₃) = dispatch_if r.has_out r.handle event true s₂ in (s₃, ds₁ ++ (ds₂ ++ ds₃))

  unfoldable pub dispatch_all : List Ready → Epoll → Epoll × List Dispatched
  unfolding dispatch_ready
  dispatch_all [] s = (s, [])
  dispatch_all (r ∷ rs) s =
      let (s', ds) = dispatch_ready r s in let (s'', es) = dispatch_all rs s' in (s'', ds ++ es)

  -- The loop over `writeable_list_` from its entry `i` on, which sees what is appended meanwhile.
  -- `none` is a loop that does not end within the fuel.
  unfoldable pub writeable_loop : ℕ → ℕ → Epoll → Option (Epoll × List Dispatched)
  unfolding dispatch
  writeable_loop zero i s = none
  writeable_loop (suc fuel) i s = elim (drop i s.writeable_list) [
    | [] ↦ some (s, [])
    | handle ∷ _ ↦ do
      let (s', ds) = dispatch handle (s.entry handle).event true s
      (s'', es) ← writeable_loop fuel (suc i) s'
      some (s'', ds ++ es)
  ]

  -- What `Poll` does with the answer of `epoll_wait`; `none` is its error. The result is `num`.
  abbrev pub poll_ready : Option (List Ready) → Epoll → ℕ × Epoll × List Dispatched
  poll_ready none s = (k_error, s, [])
  poll_ready (some []) s = (0, s, [])
  poll_ready (some (r ∷ rs)) s =
      let (s', ds) = dispatch_all (r ∷ rs) s in (suc (length rs), process_retired s', ds)

  -- `Poll`, with fuel for the first loop
  unfoldable pub poll : ℕ → Option (List Ready) → Epoll → Option (ℕ × Epoll × List Dispatched)
  unfolding writeable_loop dispatch_all process_retired
  poll fuel ready s = do
    (s', ds) ← writeable_loop fuel 0 s
    let (num, s'', es) = poll_ready ready (record s' { writeable_list = [] })
    some (num, s'', ds ++ es)
