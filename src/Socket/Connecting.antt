-- ===== src/Socket/Connecting.antt =====
-- `Connect`, and what becomes of a connection attempt.
use libserverkit.Base.{
  ℕ, ◌≡◌, refl, ap, ◌∙◌, false, inl, inr, Option, none, some, List, [], ◌∷◌, ◌==◌, if◌then◌else◌,
  ◌>>=◌, Bool-cases,
}
use libserverkit.BufferList.{Pool}
use libserverkit.BufferList.Rep.{Rep}
use libserverkit.Net.{ReadAnswer, WriteAnswer, k_ok, eintr, einprogress}
use libserverkit.Net.Calls.{SysResult, gives, fails, connect_async}
use libserverkit.Rpc.Channel.{SocketStatus, init, connecting, connected, closed}
use libserverkit.Socket.{
  Socket, on_connect, on_write, adds, client_socket, OutRun, out_run, unchanged, before,
  socket_connect, first_connect, connect_of, connect_in, socket_in, in_status, socket_out,
  out_status, write_all, tell, is_positive,
}
use libserverkit.Socket.Writing.{socket_out_empty}

-- The first answer that is not an interrupt.
abbrev pub settled : List SysResult → Option SysResult
settled [] = none
settled (gives n ∷ rs) = some (gives n)
settled (fails e ∷ rs) = if e == eintr then settled rs else some (fails e)

-- What `ConnectAsync` makes of it.
abbrev pub error_of : SysResult → ℕ
error_of (gives n) = k_ok
error_of (fails e) = if e == einprogress then k_ok else e

error : Option SysResult → Option ℕ
error none = none
error (some a) = some (error_of a)

connect_async-settled :
    (rs : List SysResult) (a : SysResult)
    → settled rs ≡ some a
    → connect_async rs ≡ some (error_of a)
unfolding connect_async error
connect_async-settled [] a h = cc
connect_async-settled (gives n ∷ rs) a h = ap error h
connect_async-settled (fails e ∷ rs) a h = elim (Bool-cases (e == eintr)) [
  | inl intr ↦ rw intr (connect_async-settled rs a (rw intr at h))
  | inr other ↦ rw other (answered (rw other at h))
]
  where
    answered :
        some (fails e) ≡ some a
        → (if e == einprogress then some k_ok else some e) ≡ some (error_of a)
    answered same =
        let shown = ap error same in
        elim (Bool-cases (e == einprogress)) [
          | inl under_way ↦ rw under_way (rw under_way at shown)
          | inr failed ↦ rw failed (rw failed at shown)
        ]

not_first :
    (rs : List SysResult) (k : Socket) (status : SocketStatus)
    → (status ≡ init → ⊥)
    → connect_in status rs k ≡ some (k, [])
not_first rs k init h = absurd (h refl)
not_first rs k connecting h = refl
not_first rs k connected h = refl
not_first rs k closed h = refl

-- `Connect` of a client's socket in its first state, whose connect call is not interrupted for ever:
-- where the call succeeds or is under way the descriptor is added to the poller, and the socket is
-- connecting, though it does not keep the handle that `Add` gives; otherwise the handler is told of
-- the error, and the socket is closed. In any other state `Connect` does nothing.
pub socket_connect_lem :
    (rs : List SysResult) (k : Socket) (a : SysResult)
    → k.socket_type ≡ client_socket
    → settled rs ≡ some a
    → (k.status ≡ init
        → socket_connect rs k ≡ (
            if error_of a == k_ok
            then some (record k { status = connecting }, adds k.fd ∷ [])
            else some (record k { status = closed }, on_connect (error_of a) ∷ [])))
      × ((k.status ≡ init → ⊥) → socket_connect rs k ≡ some (k, []))
unfolding socket_connect
socket_connect_lem rs k a client h =
    let typed = ap (λ t. connect_of t rs k) client in
    (
      λ first.
          typed
          ∙ ap (λ status. connect_in status rs k) first
          ∙ ap (λ err. first_connect err k) (connect_async-settled rs a h),
      λ other. typed ∙ not_first rs k k.status other,
    )

-- A socket that is still connecting, with nothing to write, when the poller reports that the attempt
-- failed, as it does by calling `In` and then `Out`: `In` does nothing, and `Out` takes the socket for
-- connected and tells the handler so.
pub connect_failure_taken :
    (reads : List ReadAnswer) (errno n : ℕ) (rs : List WriteAnswer) (s : Pool) (k : Socket)
    (others ps : List ℕ)
    → k.status ≡ connecting
    → Rep s k.write_list others ps []
    → (o : OutRun) × (socket_in reads errno s k ≡ some (unchanged s k))
      × (socket_out [] n rs errno s k ≡ some o)
      × (o.run.socket.status ≡ connected)
      × (o.run.effects ≡ on_connect k_ok ∷ (if is_positive n then tell k on_write else []))
unfolding socket_in in_status socket_out out_status write_all
connect_failure_taken reads errno n rs s k others ps st rep =
    let k' = record k { status = connected } in
    let o =
      out_run s (record k' { is_writable = false }) (if is_positive n then tell k on_write else [])
        false n [] in
    (
      before (on_connect k_ok ∷ []) o,
      ap (λ status. in_status status reads errno s k) st,
      ap (λ status. out_status status [] n rs errno s k) st
          ∙ ap (λ run. do r ← run; some (before (on_connect k_ok ∷ []) r))
              (socket_out_empty [] n rs errno s k' others ps refl rep),
      refl,
      refl,
    )
