-- ===== src/Rpc/Stream/Connection.antt =====
-- One event of a connection: `Socket::In` (core/socket.cc) reads what the system has and calls the
-- handler's `OnRead`, which receives packets from the socket's read list and handles them. What the
-- handler asks for is an effect, carried out behind the loop. `others` are the buffers of other owners,
-- which only the theorem speaks of.
use libserverkit.Base.{
  ℕ, suc, ◌^◌, ◌≤◌, ◌≡◌, Bool, inl, inr, true, false, refl, sym, ap, subst, ◌∙◌, Option, some, List,
  [], ◌∷◌, ◌++◌, length, All, >>=_some, arith, ◌>>=◌, Bool-cases, ◌==◌, eq_of_==, eq-nil_of_length,
}
use libserverkit.BufferList.{Pool}
use libserverkit.ByteQueue.{ByteQueue}
use libserverkit.ByteQueue.OfBufferList.{of_buffer_list}
use libserverkit.Net.{ReadAnswer, k_ok, is_io_try_again}
use libserverkit.Net.Script.{arrived, verdict, HasRoom}
use libserverkit.Socket.{Socket, SocketEffect, on_read, SocketRun, socket_in}
use libserverkit.Socket.Reading.{socket_in_refines}
use libserverkit.Rpc.Channel.{connected}
use libserverkit.Rpc.Packet.{Packet}
use libserverkit.Rpc.Packet.Laws.{IsWellFormed}
use libserverkit.Rpc.Parser.{Parser}
use libserverkit.Rpc.Stream.{handle_all, read_packets}
use libserverkit.Rpc.Stream
use libserverkit.Rpc.Stream.Waiting.{Stands, Reads}
use libserverkit.Rpc.Stream.Resume.{kept, idle, resume}

-- The parser, the pool, the socket and the end of the connection that handles the packets
pub record Connection (S : Type 0) : Type 0 where
  pub parser : Parser
  pub pool : Pool
  pub socket : Socket
  pub end : S

-- Whether the handler's `OnRead` is called.
abbrev pub announces : List SocketEffect → Bool
announces [] = false
announces (on_read ∷ es) = true
announces (_ ∷ es) = announces es

module _ (others : List ℕ) {S E : Type 0} (handle : S → Packet → S × List E) where
  abbrev pub queue : ByteQueue
  queue = of_buffer_list others

  abbrev pub read_announced : Bool → SocketRun → Connection S → Option (Connection S × List E)
  read_announced false r n = some (record n { pool = r.pool; socket = r.socket }, [])
  read_announced true r n = do
    (m, q, c, es) ← Stream.on_read queue handle n.parser (r.pool, r.socket.read_list) n.end
    some (
      record { parser = m; pool = q.0; socket = record r.socket { read_list = q.1 }; end = c },
      es,
    )

  -- `In`, with the handler's `OnRead`
  unfoldable pub connection_in : List ReadAnswer → ℕ → Connection S → Option (Connection S × List E)
  connection_in rs errno n = do
    r ← socket_in rs errno n.pool n.socket
    read_announced (announces r.effects) r n

  -- The place of a connection in a stream of packets.
  abbrev pub IsAt : Connection S → List Packet → List ℕ → Type 0
  IsAt n ps b =
      (n.socket.status ≡ connected)
      × (n.socket.has_handler ≡ true)
      × Stands queue n.parser (n.pool, n.socket.read_list) ps b

  -- What an event has done: the packets `ds` are handled, and the packets `left` are to come.
  abbrev pub Handled : List ReadAnswer → ℕ → Connection S → List Packet → List ℕ → Type 0
  Handled rs errno n ps b =
      (ds left : List Packet) × (n' : Connection S) × (connection_in rs errno n
        ≡ some (n', (handle_all queue handle ds n.end).1))
      × (n'.end ≡ (handle_all queue handle ds n.end).0)
      × (ps ≡ ds ++ left)
      × IsAt n' left b
      × (b ≡ [] → left ≡ [])

  -- `In` has nothing to announce.
  quiet :
      (rs : List ReadAnswer) (errno : ℕ) (n : Connection S) (ps : List Packet) (b : List ℕ)
      (r : SocketRun)
      → socket_in rs errno n.pool n.socket ≡ some r
      → announces r.effects ≡ false
      → r.socket.status ≡ connected
      → r.socket.has_handler ≡ true
      → Stands queue n.parser (r.pool, r.socket.read_list) ps b
      → (b ≡ [] → ps ≡ [])
      → Handled rs errno n ps b
  unfolding connection_in
  quiet rs errno n ps b r e a st h sd d = (
    [],
    ps,
    record n { pool = r.pool; socket = r.socket },
    >>=_some _ _ e (rw a refl),
    refl,
    refl,
    (st, h, sd),
    d,
  )

  -- `In` announces, and `OnRead` runs.
  announced :
      (rs : List ReadAnswer) (errno : ℕ) (n : Connection S) (ps : List Packet) (b : List ℕ)
      (r : SocketRun)
      → socket_in rs errno n.pool n.socket ≡ some r
      → announces r.effects ≡ true
      → r.socket.status ≡ connected
      → r.socket.has_handler ≡ true
      → Reads queue handle b
          (suc (queue.size (r.pool, r.socket.read_list)))
          n.parser
          (r.pool, r.socket.read_list)
          n.end
          ps
      → Handled rs errno n ps b
  unfolding connection_in
  announced rs errno n ps b r e a st h rd = (
    rd.ds,
    rd.left,
    record {
      parser = rd.m';
      pool = rd.t.0;
      socket = record r.socket { read_list = rd.t.1 };
      end = (handle_all queue handle rd.ds n.end).0;
    },
    >>=_some _ _ e (rw a (>>=_some _ _ rd.returns refl)),
    refl,
    rd.parts,
    (st, h, rd.stands),
    rd.all_read,
  )

  -- A connection stands somewhere in a stream of well-formed packets, with `b` still to come behind
  -- what the system has now, up to 2^63 bytes that fit into the buffers and come to an end with "try
  -- again". Then `In` and the `OnRead` that it calls return; they have handled the packets that are
  -- complete, in their order, and each of them once. The connection is still open and stands where the
  -- other packets begin, and what the queue holds is less than the meta data of the first of these, or
  -- less than its content where its meta data was taken. Nothing is left when nothing is to come.
  pub connection_in_refines :
      (rs : List ReadAnswer) (errno e : ℕ) (n : Connection S) (ps : List Packet) (b : List ℕ)
      → All IsWellFormed ps
      → IsAt n ps (arrived rs ++ b)
      → HasRoom rs n.pool n.socket.read_list
      → length (arrived rs) ≤ 2 ^ 63
      → verdict rs errno ≡ some (false, e)
      → is_io_try_again e ≡ true
      → (e == k_ok) ≡ false
      → Handled rs errno n ps b
  connection_in_refines rs errno e n ps b w at room few v again ok =
      let st = at.2 in
      let (xs, (bufs, rep), short) =
        kept queue n.parser (n.pool, n.socket.read_list) ps (arrived rs ++ b) st in
      let (r, l, qs, runs, socket, effects, rep', _) =
        socket_in_refines rs errno n.pool n.socket others bufs xs false e at.0 rep room
          (omega (arith, few, short)) v ok in
      let list : r.socket.read_list ≡ l = ap (λ (k : Socket). k.read_list) socket in
      let status : r.socket.status ≡ connected = ap (λ (k : Socket). k.status) socket ∙ at.0 in
      let handled : r.socket.has_handler ≡ true =
        ap (λ (k : Socket). k.has_handler) socket ∙ at.1 in
      let held : ByteQueue.Holds queue (r.pool, r.socket.read_list) (xs ++ arrived rs) =
        subst (λ m. ByteQueue.Holds queue (r.pool, m) (xs ++ arrived rs)) (sym list) (qs, rep') in
      elim (Bool-cases (length (xs ++ arrived rs) == 0)) [
        | inl none_read ↦
            let empty : xs ++ arrived rs ≡ [] =
              eq-nil_of_length (xs ++ arrived rs)
                (eq_of_== (length (xs ++ arrived rs)) 0 none_read) in
            let (sd, d) =
              idle queue n.parser (n.pool, n.socket.read_list) (r.pool, r.socket.read_list) ps
                (arrived rs) b st empty
                (subst (ByteQueue.Holds queue (r.pool, r.socket.read_list)) empty held) in
            quiet rs errno n ps b r runs (ap announces effects ∙ rw (again, none_read) refl) status
              handled sd d
        | inr some_read ↦
            announced rs errno n ps b r runs
              (ap announces effects ∙ rw (again, some_read, at.1) refl) status handled
              (resume queue handle n.parser (n.pool, n.socket.read_list)
                (r.pool, r.socket.read_list) n.end ps (arrived rs) b w st held)
      ]
