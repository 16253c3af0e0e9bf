-- ===== src/Rpc/Stream/Waiting.antt =====
-- Where the parser stands between two calls of `OnRead`, and how one call brings it on.
use libserverkit.Base.{
  ℕ, suc, ◌^◌, ◌<◌, ◌≡◌, ◌⊎◌, refl, ap, true, false, some, List, [], ◌∷◌, ◌++◌, length, lt→ltb,
  >>=_some, arith,
}
use libserverkit.ByteQueue.{ByteQueue}
use libserverkit.Rpc.Packet.{Packet, meta_size}
use libserverkit.Rpc.Packet.Laws.{IsWellFormed}
use libserverkit.Rpc.Parser.{
  Parser, recv_header, recv_content, recv_packet, rounds, round, content_round,
}
use libserverkit.Rpc.Parser.Receive.{received, meta_of, recv_rest}
use libserverkit.Rpc.Stream.{done_before, read_packets, handle_all, encode_all}

-- More than the meta data and the content of one packet.
abbrev pub packet_room : ℕ
packet_room = 2 ^ 33

module _ (q : ByteQueue) where
  -- In the first state: the queue and the bytes `b` that have not come yet are the packets `ps`, and
  -- the queue does not hold the meta data of the first of them yet.
  pub record Between (m : Parser) (s : ByteQueue.State q) (ps : List Packet) (b : List ℕ)
      : Type 0 where
    pub old : Packet
    pub xs : List ℕ
    pub place : m ≡ record { state = recv_header; packet = old }
    pub held : ByteQueue.Holds q s xs
    pub whole : xs ++ b ≡ encode_all ps
    pub few : length xs < packet_room
    pub short : length xs < meta_size

  -- In the second state: the meta data of the first packet was taken, and the queue does not hold its
  -- content yet.
  pub record Inside (m : Parser) (s : ByteQueue.State q) (ps : List Packet) (b : List ℕ)
      : Type 0 where
    pub p : Packet
    pub rest : List Packet
    pub old : List ℕ
    pub xs : List ℕ
    pub place : m ≡ record { state = recv_content; packet = meta_of p old }
    pub first : ps ≡ p ∷ rest
    pub held : ByteQueue.Holds q s xs
    pub whole : xs ++ b ≡ p.content ++ encode_all rest
    pub few : length xs < packet_room
    pub short : length xs < length p.content

  abbrev pub Stands : Parser → ByteQueue.State q → List Packet → List ℕ → Type 0
  Stands m s ps b = Between m s ps b ⊎ Inside m s ps b

  -- The content is not there yet.
  pub recv_packet_wait :
      (p : Packet) (s : ByteQueue.State q) (xs : List ℕ)
      → ByteQueue.Holds q s xs
      → length xs < p.size
      → recv_packet q (record { state = recv_content; packet = p }) s
        ≡ some (false, record { state = recv_content; packet = p }, s)
  unfolding recv_packet rounds round content_round
  recv_packet_wait p s xs h short = rw (lt→ltb (q.size s) p.size (omega (arith, q.size_lem s xs h)))

  -- The content is there.
  pub recv_packet_rest :
      (p : Packet) (old : List ℕ) (s : ByteQueue.State q) (ys : List ℕ)
      → IsWellFormed p
      → ByteQueue.Holds q s (p.content ++ ys)
      → (t : ByteQueue.State q) × (recv_packet q
            (record { state = recv_content; packet = meta_of p old })
            s
          ≡ some (true, received p, t))
        × ByteQueue.Holds q t ys
  unfolding recv_packet
  recv_packet_rest p old s ys w h = recv_rest q p old s ys 1 w h

module _ (q : ByteQueue) {S E : Type 0} (handle : S → Packet → S × List E) (b : List ℕ) where
  -- What a call of `OnRead` has done: the packets `ds` are handled, the packets `left` are to come.
  pub record Reads (fuel : ℕ) (m : Parser) (s : ByteQueue.State q) (c : S) (ps : List Packet)
      : Type 0 where
    pub ds : List Packet
    pub left : List Packet
    pub m' : Parser
    pub t : ByteQueue.State q
    pub returns :
        read_packets q handle fuel m s c
        ≡ some (m', t, (handle_all q handle ds c).0, (handle_all q handle ds c).1)
    pub parts : ps ≡ ds ++ left
    pub stands : Stands q m' t left b
    pub all_read : b ≡ [] → left ≡ []

  -- `RecvPacket` fails.
  pub stops :
      (fuel : ℕ) (m m' : Parser) (s t : ByteQueue.State q) (c : S) (ps : List Packet)
      → recv_packet q m s ≡ some (false, m', t)
      → Stands q m' t ps b
      → (b ≡ [] → ps ≡ [])
      → Reads (suc fuel) m s c ps
  unfolding read_packets
  stops fuel m m' s t c ps e st d = record {
    ds = [];
    left = ps;
    m' = m';
    t = t;
    returns = >>=_some _ _ e refl;
    parts = refl;
    stands = st;
    all_read = d;
  }

  -- It has received a packet, and the loop goes on.
  pub goes_on :
      (fuel : ℕ) (m : Parser) (s t : ByteQueue.State q) (c : S) (p : Packet) (ps : List Packet)
      → recv_packet q m s ≡ some (true, received p, t)
      → Reads fuel (received p) t (handle c (received p).packet).0 ps
      → Reads (suc fuel) m s c (p ∷ ps)
  unfolding read_packets
  goes_on fuel m s t c p ps e r = record {
    ds = p ∷ r.ds;
    left = r.left;
    m' = r.m';
    t = r.t;
    returns = >>=_some _ _ e (ap (done_before (handle c (received p).packet).1) r.returns);
    parts = ap (◌∷◌ p) r.parts;
    stands = r.stands;
    all_read = r.all_read;
  }
