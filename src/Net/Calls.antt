-- ===== src/Net/Calls.antt =====
-- base/net.cc: `createListenSocket`, `setNonBlocking`, `Listen`, `Accept` and `ConnectAsync`. What a
-- call of the system gives is an argument.
use libserverkit.Base.{ℕ, not, Option, none, some, List, [], ◌∷◌, ◌==◌, if◌then◌else◌, ◌||◌}
use libserverkit.Net.{k_ok, k_error, eintr, eagain, ewouldblock, einprogress}

-- A call that gives a number, or -1 with `errno`.
pub data SysResult : Type 0 where
  gives : ℕ → SysResult
  fails : ℕ → SysResult

-- The calls in the order in which `Listen` makes them.
pub record ListenCalls : Type 0 where
  pub socket_call : SysResult
  pub setsockopt_call : SysResult
  pub get_flags_call : SysResult
  pub set_flags_call : SysResult
  pub inet_aton_call : SysResult
  pub bind_call : SysResult
  pub listen_call : SysResult

-- `createListenSocket`: the descriptor and `*err`.
unfoldable pub create_listen_socket : SysResult → SysResult → ℕ → ℕ × ℕ
create_listen_socket (fails e) opt err = (k_error, e)
create_listen_socket (gives fd) (fails e) err = (k_error, e)
create_listen_socket (gives fd) (gives n) err = (fd, err)

-- `setNonBlocking`
unfoldable pub set_non_blocking : SysResult → SysResult → ℕ
set_non_blocking (fails e) set = e
set_non_blocking (gives flags) (fails e) = e
set_non_blocking (gives flags) (gives n) = k_ok

-- What `Listen` returns, `*err`, and the descriptors that it closes.
pub record Opened : Type 0 where
  pub result : ℕ
  pub err : ℕ
  pub closes : List ℕ

-- The label `error`
abbrev pub close_with : ℕ → ℕ → Opened
close_with fd err = record { result = k_error; err = err; closes = fd ∷ [] }

-- `Listen` from `inet_aton` on
unfoldable pub listen_rest : SysResult → SysResult → SysResult → ℕ → ℕ → Opened
listen_rest (fails e) bind listen fd err = close_with fd e
listen_rest (gives n) (fails e) listen fd err = close_with fd e
listen_rest (gives n) (gives m) (fails e) fd err = close_with fd e
listen_rest (gives n) (gives m) (gives k) fd err = record { result = fd; err = err; closes = [] }

-- `Listen`. Where `setNonBlocking` fails, `*err` is as before.
unfoldable pub listen_on : ListenCalls → Opened
unfolding create_listen_socket set_non_blocking listen_rest
listen_on c =
    let (fd, err) = create_listen_socket c.socket_call c.setsockopt_call k_ok in
    if not (err == k_ok)
    then record { result = k_error; err = err; closes = [] }
    else if not (set_non_blocking c.get_flags_call c.set_flags_call == k_ok)
    then close_with fd err
    else listen_rest c.inet_aton_call c.bind_call c.listen_call fd err

-- An answer of `accept`: a descriptor, with what `setNonBlocking` gives for it; or an error.
pub data AcceptAnswer : Type 0 where
  accepted : ℕ → ℕ → AcceptAnswer
  accept_failed : ℕ → AcceptAnswer

-- What `Accept` returns, `*err`, and the answers that were not needed.
pub record Accepted : Type 0 where
  pub result : ℕ
  pub err : ℕ
  pub rest : List AcceptAnswer

-- The loop of `Accept`. `none` is a loop that goes on after the last answer.
unfoldable pub accept : List AcceptAnswer → Option Accepted
accept [] = none
accept (accepted fd ret ∷ rs) =
    if not (ret == k_ok)
    then some (record { result = k_error; err = k_ok; rest = rs })
    else some (record { result = fd; err = k_ok; rest = rs })
accept (accept_failed e ∷ rs) =
    let again = accept rs in
    if (e == eagain) || (e == ewouldblock)
    then some (record { result = k_ok; err = e; rest = rs })
    else if e == eintr
    then again
    else some (record { result = k_error; err = e; rest = rs })

-- `ConnectAsync`, with the answers of `connect`: `none` is a loop that goes on.
unfoldable pub connect_async : List SysResult → Option ℕ
connect_async [] = none
connect_async (gives n ∷ rs) = some k_ok
connect_async (fails e ∷ rs) =
    let again = connect_async rs in
    if e == eintr then again else if e == einprogress then some k_ok else some e
