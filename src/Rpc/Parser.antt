-- ===== src/Rpc/Parser.antt =====
-- rpc/packet_parser.h and rpc/packet_parser.cc over any byte queue. Logging is left out.
pub mod Receive
pub mod Send
pub mod Split
use libserverkit.Base.{
  ℕ, zero, suc, ◌+◌, ◌-◌, ◌*◌, ◌/◌, ◌%◌, ◌^◌, ◌<◌, ◌≡◌, Bool, true, false, not, Option, none, some,
  List, [], ◌∷◌, ◌++◌, length, take, drop, replicate, ltb, ◌==◌, if◌then◌else◌, ◌>>=◌,
}
use libserverkit.ByteQueue.{ByteQueue}
use libserverkit.Rpc.Packet.{Packet, overwrite, bytes_of, value_of, meta_size, packet_magic_num}

pub data ParserState : Type 0 where
  recv_header recv_content recv_finished : ParserState

pub record Parser : Type 0 where
  pub state : ParserState
  pub packet : Packet

-- What one round of the loop of `RecvPacket` does: `return false`, go on, or set `done`.
pub data Round {ℓ} (A : Type ℓ) : Type ℓ where
  fail : A → Round A
  again : A → Round A
  finish : A → Round A

-- `std::string::resize`
abbrev pub resize : ℕ → List ℕ → List ℕ
resize n xs = take n xs ++ replicate (n - length xs) 0

module _ (q : ByteQueue) where
  abbrev Queue : Type 0
  Queue = ByteQueue.State q

  -- `socket_->Read` into a variable of `k` bytes.
  abbrev pub read_value : ℕ → ℕ → Queue → Option (ℕ × Queue)
  read_value k old s = do (out, n, t) ← ByteQueue.read q k s; some (overwrite k old out, t)

  -- `RECV_HEADER_STATE`
  unfoldable pub header_round : Packet → Queue → Option (Round (Parser × Queue))
  header_round p s =
      if ltb (ByteQueue.size q s) meta_size
      then some (fail (record { state = recv_header; packet = p }, s))
      else do
        (magic, s₁) ← read_value 1 p.magic s
        (guid, s₂) ← read_value 8 p.guid s₁
        (method_id, s₃) ← read_value 8 p.method_id s₂
        (size, s₄) ← read_value 4 p.size s₃
        let p' = record p {
          recv_done = false;
          magic = magic;
          guid = guid;
          method_id = method_id;
          size = size;
        }
        some (
            if not (magic == packet_magic_num)
            then fail (record { state = recv_header; packet = p' }, s₄)
            else again (record { state = recv_content; packet = p' }, s₄))

  -- `RECV_PACKET_STATE`
  unfoldable pub content_round : Packet → Queue → Option (Round (Parser × Queue))
  content_round p s =
      if ltb (ByteQueue.size q s) p.size
      then some (fail (record { state = recv_content; packet = p }, s))
      else do
        (out, n, t) ← ByteQueue.read q p.size s
        some (
            again (
              record {
                state = recv_finished;
                packet = record p { content = out ++ drop (length out) (resize p.size p.content) };
              },
              t,
            ))

  -- `RECV_DONE`
  abbrev pub done_round : Packet → Queue → Option (Round (Parser × Queue))
  done_round p s =
      some (finish (record { state = recv_header; packet = record p { recv_done = true } }, s))

  unfoldable pub round : ParserState → Packet → Queue → Option (Round (Parser × Queue))
  unfolding header_round content_round
  round recv_header p s = header_round p s
  round recv_content p s = content_round p s
  round recv_finished p s = done_round p s

  -- `while (!done)`; `none` is a loop that does not end within the fuel.
  unfoldable pub rounds : ℕ → Parser → Queue → Option (Bool × Parser × Queue)
  rounds zero m s = none
  rounds (suc fuel) m s = do
    r ← round m.state m.packet s
    elim r [
      | fail (m', t) ↦ some (false, m', t)
      | again (m', t) ↦ rounds fuel m' t
      | finish (m', t) ↦ some (true, m', t)
    ]

  -- `RecvPacket`. The assertion stops the program in the state `RECV_DONE`.
  abbrev pub starts : ParserState → Bool
  starts recv_header = true
  starts recv_content = true
  starts recv_finished = false

  unfoldable pub recv_packet : Parser → Queue → Option (Bool × Parser × Queue)
  unfolding rounds
  recv_packet m s = if starts m.state then rounds 3 m s else none

  -- `SendPacket`: the five writes. The packet itself is deleted after them.
  unfoldable pub send_packet : Packet → Queue → Option Queue
  send_packet p s = do
    (a, s₁) ← ByteQueue.write q (bytes_of 1 p.magic) s
    (b, s₂) ← ByteQueue.write q (bytes_of 8 p.guid) s₁
    (c, s₃) ← ByteQueue.write q (bytes_of 8 p.method_id) s₂
    (d, s₄) ← ByteQueue.write q (bytes_of 4 p.size) s₃
    (e, s₅) ← ByteQueue.write q p.content s₄
    some s₅
