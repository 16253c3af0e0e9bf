-- ===== src/ByteQueue.antt =====
-- What the packet parser uses of a socket's buffer (core/socket.h: `ReadBufferSize`, `Read` and the
-- write into the buffer): operations on a state, and the list of bytes that a state stands for.
pub mod OfBufferList
use Prim.Native.Nat.{min}
use libserverkit.Base.{ℕ, ◌+◌, ◌^◌, ◌<◌, ◌≡◌, Option, some, List, ◌++◌, length, take, drop}

abbrev pub size_mod : ℕ
size_mod = 2 ^ 64

pub record ByteQueue : Type 1 where
  pub State : Type 0
  pub Holds : State → List ℕ → Type 0
  pub size : State → ℕ
  pub read : ℕ → State → Option (List ℕ × ℕ × State)
  pub write : List ℕ → State → Option (ℕ × State)
  pub size_lem : (s : State) (xs : List ℕ) → Holds s xs → size s ≡ length xs
  pub read_lem :
      (n : ℕ) (s : State) (xs : List ℕ)
      → Holds s xs
      → n < size_mod
      → (t : State) × (read n s ≡ some (take n xs, min n (length xs), t)) × Holds t (drop n xs)
  pub write_lem :
      (src : List ℕ) (s : State) (xs : List ℕ)
      → Holds s xs
      → length xs + length src < size_mod
      → (t : State) × (write src s ≡ some (length src, t)) × Holds t (xs ++ src)
