-- ===== src/BufferList.antt =====
-- base/buffer.h and base/buffer.cc, class `BufferList`: a byte queue over a chain of buffers that
-- come from the pool. The counters are `size_t`, of 64 bits.
pub mod Chain
pub mod Rep
pub mod Advance
pub mod Extend
pub mod ReadLoop
pub mod WriteLoop
pub mod Lifetime
use libserverkit.Base.{
  ℕ, zero, suc, ◌+◌, ◌-◌, ◌%◌, ◌^◌, Bool, true, false, Option, none, some, List, [], ◌++◌, update,
  slice, memcpy, length, take, drop, ltb, ◌==◌, if◌then◌else◌, Bytes,
}
use libserverkit.ObjectPool.{ObjectPool, null, get, free}
use Chain.{set_next}
use libserverkit.Buffer.{Buffer, buffer_size, reset, new_buffer}

abbrev pub Pool : Type 0
Pool = ObjectPool Buffer

pub record BufferList : Type 0 where
  pub read_inx : ℕ
  pub write_inx : ℕ
  pub head : ℕ
  pub read : ℕ
  pub write : ℕ
  pub write_size : ℕ
  pub read_size : ℕ

abbrev pub size_mod : ℕ
size_mod = 2 ^ 64

abbrev pub add_size : ℕ → ℕ → ℕ
add_size a b = (a + b) % size_mod

abbrev pub sub_size : ℕ → ℕ → ℕ
sub_size a b = (a + size_mod - b) % size_mod

-- A new buffer's memory is filled by its constructor.
abbrev pub fresh_buffer : Buffer
fresh_buffer = new_buffer (λ i. 0)

-- `BufferList()`
unfoldable pub new_list : Pool → Pool × BufferList
new_list s =
    let (p, s') = get fresh_buffer s in
    (
      s',
      record {
        read_inx = 0;
        write_inx = 0;
        head = p;
        read = p;
        write = p;
        write_size = 0;
        read_size = 0;
      },
    )

unfoldable pub readable_size : BufferList → ℕ
readable_size l = sub_size l.write_size l.read_size

unfoldable pub writeable_size : BufferList → ℕ
writeable_size l = sub_size buffer_size l.write_inx

unfoldable pub is_empty : BufferList → Bool
unfolding readable_size
is_empty l = readable_size l == 0

-- `currentBufferReadSize`
unfoldable pub current_read_size : BufferList → ℕ
current_read_size l =
    if l.read == l.write then sub_size l.write_inx l.read_inx else sub_size buffer_size l.read_inx

-- `n` bytes from `ReadPoint()` on.
unfoldable pub peek : Pool → BufferList → ℕ → List ℕ
peek s l n = slice (s.cell l.read).bytes l.read_inx n

-- A copy of `src` to `WritePoint()`.
unfoldable pub poke : Pool → BufferList → List ℕ → Pool
poke s l src = record s {
  cell =
      update s.cell l.write
        (record (s.cell l.write) { bytes = memcpy (s.cell l.write).bytes l.write_inx src });
}

-- `ReadAdvance`
unfoldable pub read_advance : ℕ → Pool → BufferList → Pool × BufferList
read_advance n s l =
    let moved = record l { read_inx = add_size l.read_inx n; read_size = add_size l.read_size n } in
    let after = (s.cell l.read).next in
    if moved.read_inx == buffer_size
    then (free reset l.read s, record moved { read = after; head = after; read_inx = 0 })
    else (s, moved)

-- `WriteAdvance`
unfoldable pub write_advance : ℕ → Pool → BufferList → Pool × BufferList
write_advance n s l =
    let moved = record l {
      write_inx = add_size l.write_inx n;
      write_size = add_size l.write_size n;
    } in
    let (p, s') = get fresh_buffer s in
    if moved.write_inx == buffer_size
    then (
      record s' { cell = set_next s'.cell l.write p },
      record moved { write = p; write_inx = 0 },
    )
    else (s, moved)

-- The loop of `Read`: what has been copied to `to`, and what is left of `n`. `none` is a loop that
-- does not end within the fuel.
unfoldable pub read_loop :
    ℕ → ℕ → List ℕ → Pool → BufferList → Option (List ℕ × ℕ × Pool × BufferList)
read_loop zero n out s l = none
read_loop (suc fuel) n out s l =
    let size = current_read_size l in
    let (s₁, l₁) = read_advance size s l in
    let rest = read_loop fuel (n - size) (out ++ peek s l size) s₁ l₁ in
    let (s₂, l₂) = read_advance n s l in
    if n == 0
    then some (out, 0, s, l)
    else if readable_size l == 0
    then some (out, n, s, l)
    else if ltb size n
    then rest
    else some (out ++ peek s l n, 0, s₂, l₂)

-- The loop of `Write` over the rest of the source array.
unfoldable pub write_loop : ℕ → List ℕ → ℕ → Pool → BufferList → Option (ℕ × Pool × BufferList)
write_loop zero src total s l = none
write_loop (suc fuel) src total s l =
    let n = length src in
    let size = writeable_size l in
    let (s₁, l₁) = write_advance size (poke s l (take size src)) l in
    let rest = write_loop fuel (drop size src) (total + size) s₁ l₁ in
    let (s₂, l₂) = write_advance n (poke s l src) l in
    if n == 0 then some (total, s, l) else if ltb size n then rest else some (total + n, s₂, l₂)

-- `Read`: the bytes copied to the caller and their number, `orig - n`.
abbrev pub finish_read :
    ℕ → Option (List ℕ × ℕ × Pool × BufferList) → Option (List ℕ × ℕ × Pool × BufferList)
finish_read orig none = none
finish_read orig (some (out, n, s, l)) = some (out, sub_size orig n, s, l)

unfoldable pub read : ℕ → Pool → BufferList → Option (List ℕ × ℕ × Pool × BufferList)
unfolding read_loop
read n s l = finish_read n (read_loop (suc n) n [] s l)

-- `Write`: the number of bytes taken from the caller.
unfoldable pub write : List ℕ → Pool → BufferList → Option (ℕ × Pool × BufferList)
unfolding write_loop
write src s l = write_loop (suc (length src)) src 0 s l

-- `~BufferList`: the loop from `head_` along `next_`.
unfoldable pub destroy_loop : ℕ → ℕ → Pool → Option Pool
destroy_loop zero head s = none
destroy_loop (suc fuel) head s =
    let rest = destroy_loop fuel (s.cell head).next (free reset head s) in
    if head == null then some s else rest

unfoldable pub destroy : ℕ → Pool → BufferList → Option Pool
unfolding destroy_loop
destroy fuel s l = destroy_loop fuel l.head s
