-- ===== src/YPipe.antt =====
-- base/ypipe.h over base/yqueue.h, for messages that are pointers, and so numbers. A `T*` into the
-- queue is the slot's index in the order of `Push`, and `none` is `NULL`.
pub mod Laws
use libserverkit.Base.{
  ℕ, ◌+◌, ◌-◌, Bool, true, false, not, Option, none, some, Bytes, update, ◌==◌, if◌then◌else◌,
}

pub record YPipe : Type 0 where
  -- the slots of the queue, its front and its back
  pub values : Bytes
  pub front : ℕ
  pub back : ℕ
  -- `w_`, `r_`, `f_` and `c_`
  pub w : ℕ
  pub r : Option ℕ
  pub f : ℕ
  pub c : Option ℕ

abbrev pub is : Option ℕ → ℕ → Bool
is none k = false
is (some j) k = j == k

-- `AtomicPointer::Cas`: the pointer afterwards. What it returns is the pointer before.
abbrev pub cas : Option ℕ → ℕ → Option ℕ → Option ℕ
cas c k val = if is c k then val else c

-- `YPipe()`: one slot pushed, and all the pointers lead to it.
unfoldable pub new_pipe : Bytes → YPipe
new_pipe values = record {
  values = values;
  front = 0;
  back = 0;
  w = 0;
  r = some 0;
  f = 0;
  c = some 0;
}

-- `Write(value, incomplete)`
unfoldable pub write : ℕ → Bool → YPipe → YPipe
write v incomplete p = record p {
  values = update p.values p.back v;
  back = p.back + 1;
  f = if not incomplete then p.back + 1 else p.f;
}

-- `UnWrite`
unfoldable pub un_write : YPipe → YPipe × Option ℕ
un_write p =
    if p.f == p.back
    then (p, none)
    else (record p { back = p.back - 1 }, some (p.values (p.back - 1)))

-- The two parts of `Flush`: the compare-and-swap, with whether it found the reader awake; and, where
-- it did not, the plain store. The reader may act between them.
unfoldable pub flush_cas : YPipe → YPipe × Bool
flush_cas p =
    if is p.c p.w then (record p { c = cas p.c p.w (some p.f); w = p.f }, true) else (p, false)

unfoldable pub flush_set : YPipe → YPipe
flush_set p = record p { c = some p.f; w = p.f }

-- `Flush`, with its result.
unfoldable pub flush : YPipe → YPipe × Bool
unfolding flush_cas flush_set
flush p =
    if p.w == p.f
    then (p, true)
    else let (p', awake) = flush_cas p in if awake then (p', true) else (flush_set p', false)

-- `&queue_.Front() != r_ && r_`
abbrev pub is_prefetched : Option ℕ → ℕ → Bool
is_prefetched none front = false
is_prefetched (some r) front = not (front == r)

-- `CheckRead`
unfoldable pub check_read : YPipe → YPipe × Bool
check_read p =
    if is_prefetched p.r p.front
    then (p, true)
    else (record p { r = p.c; c = cas p.c p.front none }, is_prefetched p.c p.front)

-- `Read`
unfoldable pub read : YPipe → YPipe × Option ℕ
unfolding check_read
read p =
    let (p', there) = check_read p in
    if there then (record p' { front = p'.front + 1 }, some (p'.values p'.front)) else (p', none)

-- `Probe`
unfoldable pub probe : (ℕ → Bool) → YPipe → YPipe × Bool
unfolding check_read
probe fn p = let p' = (check_read p).0 in (p', fn (p'.values p'.front))
