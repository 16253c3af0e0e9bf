-- ===== src/Tests/Buffers.antt =====
-- The buffers: one list in a new pool.
use mathlib.Core.Bool.{true}
use libserverkit.Base.{
  ℕ, ◌==◌, if◌then◌else◌, ◌≡◌, refl, Option, none, some, List, [], ◌∷◌, ◌++◌, arith, has, slice,
  memcpy,
}
use libserverkit.ObjectPool.{new_pool, get, free, null}
use libserverkit.ObjectPool.Laws.{IsValid, new_pool-IsValid, free-IsValid}
use libserverkit.Buffer.{reset, new_buffer}
use libserverkit.BufferList.{
  Pool, BufferList, fresh_buffer, new_list, read, write, destroy, writeable_size, readable_size,
  write_advance, current_read_size, read_advance, peek, poke,
}
use libserverkit.BufferList.Rep.{Rep}
use libserverkit.BufferList.Lifetime.{new_list_refines, destroy_stale}
use libserverkit.BufferList.ReadLoop.{read_refines}
use libserverkit.BufferList.WriteLoop.{write_refines}

abbrev pub pool : Pool
pool = new_pool fresh_buffer

abbrev pub start : Pool × BufferList
start = new_list pool

abbrev read_of : Option (ℕ × Pool × BufferList) → ℕ → Option (List ℕ)
read_of none n = none
read_of (some (k, s, l)) n = elim (read n s l) [ none ↦ none | some (out, c, t, m) ↦ some out ]

-- What is written is read back, also over the end of the first buffer.
write_read_run : read_of (write (7 ∷ 8 ∷ 9 ∷ []) start.0 start.1) 2 ≡ some (7 ∷ 8 ∷ [])
unfolding new_pool new_list read write get slice memcpy writeable_size readable_size write_advance
    current_read_size peek poke
write_read_run = refl

pub start-Rep : Rep start.0 start.1 [] [] []
start-Rep = (new_list_refines pool [] (new_pool-IsValid fresh_buffer)).0

write_refines_example :
    (t : Pool) × (m : BufferList) × (qs : List ℕ) × (write (7 ∷ 8 ∷ 9 ∷ []) start.0 start.1
      ≡ some (3, t, m))
    × Rep t m [] qs (7 ∷ 8 ∷ 9 ∷ [])
    × ((a : ℕ) → has a [] ≡ true → t.cell a ≡ start.0.cell a)
write_refines_example =
    write_refines (7 ∷ 8 ∷ 9 ∷ []) start.0 start.1 [] [] [] start-Rep (omega arith)

abbrev three : Pool × BufferList
three = (write_refines_example.0, write_refines_example.1)

read_refines_example :
    (t : Pool) × (m : BufferList) × (qs : List ℕ) × (read 2 three.0 three.1
      ≡ some (7 ∷ 8 ∷ [], 2, t, m))
    × Rep t m [] qs (9 ∷ [])
    × ((a : ℕ) → has a [] ≡ true → t.cell a ≡ three.0.cell a)
read_refines_example =
    read_refines 2 three.0 three.1 [] write_refines_example.2 (7 ∷ 8 ∷ 9 ∷ [])
      write_refines_example.4 (omega arith)

start_link : (start.0.cell start.1.write).next ≡ null
unfolding new_pool new_list get reset new_buffer
start_link = refl

-- Buffer 1 was used before and still leads to buffer 2, which somebody owns.
abbrev recycled : Pool
recycled = record {
  cell = λ a. record fresh_buffer { next = if a == 1 then 2 else 0 };
  brk = 3;
  free_list = 1 ∷ [];
}

recycled-IsValid : IsValid recycled (2 ∷ [])
recycled-IsValid = record {
  nodup = (refl, (refl, tt));
  allocated = omega arith;
  positive = omega arith;
}

-- Two buffers, with one byte left in the first.
abbrev linked_pool : Pool
linked_pool = record recycled { free_list = [] }

abbrev one_left : BufferList
one_left = record {
  read_inx = 4095;
  write_inx = 0;
  head = 1;
  read = 1;
  write = 2;
  write_size = 4096;
  read_size = 4095;
}

one_left-Rep : Rep linked_pool one_left [] (2 ∷ []) (48 ∷ [])
unfolding slice reset new_buffer
one_left-Rep = record {
  valid = record { nodup = (refl, (refl, tt)); allocated = omega arith; positive = omega arith };
  linked = (refl, tt);
  write_last = refl;
  head_read = refl;
  read_in = omega arith;
  write_in = omega arith;
  ordered = omega arith;
  contents = refl;
  small = omega arith;
  counted = refl;
  read_small = omega arith;
}

free-IsValid_example : IsValid (free reset 2 recycled) []
free-IsValid_example = free-IsValid reset 2 recycled [] [] recycled-IsValid

destroy_stale_example :
    let (t, m) = read_advance 1 linked_pool one_left in
    let (u, k) = new_list t in
    (m.read ≡ 2)
    × ((qs left : List ℕ) × ((48 ∷ []) ≡ peek linked_pool one_left 1 ++ left) × Rep t m [] qs left)
    × ((v : Pool) × (destroy 3 u k ≡ some v) × (has 2 v.free_list ≡ true))
destroy_stale_example =
    destroy_stale 0 1 linked_pool one_left [] 2 (48 ∷ []) one_left-Rep refl refl refl
