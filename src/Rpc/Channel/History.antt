-- ===== src/Rpc/Channel/History.antt =====
-- What happens to a channel, as a sequence of events, and the effects of the sequence.
use libserverkit.Base.{ℕ, Bool, List, [], ◌∷◌, ◌++◌, ◌≡◌, refl, ap}
use libserverkit.Rpc.Packet.{Packet}
use libserverkit.Rpc.Channel.{
  SocketStatus, init, connecting, connected, closed, RpcChannel, Call, Effect, inits, sends,
  connects, fills, runs, drops, call_method, on_connect, on_packet,
}

-- A call, with what its connect attempt would return; the socket turns writable; a packet comes.
pub data Event : Type 0 where
  calls : ℕ → Call → Event
  writable : Event
  arrives : Packet → Event

-- `Socket::Out` calls `OnConnect(kOK)` where the socket is connecting.
unfoldable pub out_in : SocketStatus → RpcChannel → RpcChannel × List Effect
out_in connecting c = on_connect c
out_in init c = (c, [])
out_in connected c = (c, [])
out_in closed c = (c, [])

module _ (parses : List ℕ → Bool) where
  unfoldable pub step : RpcChannel → Event → RpcChannel × List Effect
  unfolding out_in
  step c (calls err call) = call_method err c call
  step c writable = out_in c.status c
  step c (arrives p) = on_packet parses c p

  unfoldable pub after : RpcChannel → List Event → RpcChannel
  after c [] = c
  after c (e ∷ es) = after (step c e).0 es

  unfoldable pub history : RpcChannel → List Event → List Effect
  history c [] = []
  history c (e ∷ es) = (step c e).1 ++ history (step c e).0 es

-- The calls whose closures were run, and the packets that were sent.
abbrev pub runs_of : List Effect → List ℕ
runs_of [] = []
runs_of (inits c g k ∷ es) = runs_of es
runs_of (sends p ∷ es) = runs_of es
runs_of (connects ∷ es) = runs_of es
runs_of (fills r x ∷ es) = runs_of es
runs_of (runs k d ∷ es) = k ∷ runs_of es
runs_of (drops d ∷ es) = runs_of es

abbrev pub sends_of : List Effect → List Packet
sends_of [] = []
sends_of (inits c g k ∷ es) = sends_of es
sends_of (sends p ∷ es) = p ∷ sends_of es
sends_of (connects ∷ es) = sends_of es
sends_of (fills r x ∷ es) = sends_of es
sends_of (runs k d ∷ es) = sends_of es
sends_of (drops d ∷ es) = sends_of es

pub runs_of-append : (es fs : List Effect) → runs_of (es ++ fs) ≡ runs_of es ++ runs_of fs
runs_of-append [] fs = refl
runs_of-append (inits c g k ∷ es) fs = runs_of-append es fs
runs_of-append (sends p ∷ es) fs = runs_of-append es fs
runs_of-append (connects ∷ es) fs = runs_of-append es fs
runs_of-append (fills r x ∷ es) fs = runs_of-append es fs
runs_of-append (runs k d ∷ es) fs = ap (◌∷◌ k) (runs_of-append es fs)
runs_of-append (drops d ∷ es) fs = runs_of-append es fs

pub sends_of-append : (es fs : List Effect) → sends_of (es ++ fs) ≡ sends_of es ++ sends_of fs
sends_of-append [] fs = refl
sends_of-append (inits c g k ∷ es) fs = sends_of-append es fs
sends_of-append (sends p ∷ es) fs = ap (◌∷◌ p) (sends_of-append es fs)
sends_of-append (connects ∷ es) fs = sends_of-append es fs
sends_of-append (fills r x ∷ es) fs = sends_of-append es fs
sends_of-append (runs k d ∷ es) fs = sends_of-append es fs
sends_of-append (drops d ∷ es) fs = sends_of-append es fs
