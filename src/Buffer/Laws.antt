-- ===== src/Buffer/Laws.antt =====
-- `AppendData` is all or nothing.
use libserverkit.Base.{
  ℕ, ◌+◌, ◌-◌, ◌≤◌, ◌<◌, ◌≡◌, ◌⊎◌, inl, inr, List, ◌++◌, arith, Bool-cases, ltb, length, slice,
  slice-memcpy,
}
use libserverkit.Buffer.{Buffer, buffer_size, buffer_length, append_data}

-- The data of a buffer, `Data()` with `Length()` bytes.
abbrev pub buffer_contents : Buffer → List ℕ
buffer_contents b = slice b.bytes 0 b.cur

-- Either the array is appended, and the buffer is not full after it, or it would fill the buffer
-- and nothing changes at all.
pub append_data_cases :
    (b : Buffer) (src : List ℕ)
    → b.cur ≤ buffer_size
    → ((b.cur + length src < buffer_size)
        × (buffer_contents (append_data b src) ≡ buffer_contents b ++ src)
        × (buffer_length (append_data b src) ≡ buffer_length b + length src))
      ⊎ ((buffer_size ≤ b.cur + length src) × (append_data b src ≡ b))
unfolding append_data buffer_length
append_data_cases b src h = elim (Bool-cases (ltb (length src) (buffer_size - b.cur))) [
  | inl fits ↦
      inl (ground arith, ground (arith, slice-memcpy b.bytes b.cur 0 b.cur src), ground arith)
  | inr full ↦ inr (ground arith, ground arith)
]
