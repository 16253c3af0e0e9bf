-- ===== src/Tests/Net.antt =====
-- A connection: one byte waits to be sent, from the end of a buffer that has a successor.
use libserverkit.Base.{
  ℕ, ◌+◌, ◌%◌, ◌^◌, ◌<◌, ◌==◌, if◌then◌else◌, ◌≡◌, refl, true, false, some, List, [], ◌∷◌, ◌++◌,
  length, arith, has, slice,
}
use libserverkit.Buffer.{reset, new_buffer}
use libserverkit.BufferList.{
  Pool, BufferList, fresh_buffer, writeable_size, write_advance, current_read_size,
}
use libserverkit.BufferList.Rep.{Rep}
use libserverkit.Net.{
  ReadAnswer, got, read_failed, WriteAnswer, took, write_failed, Received, Sent, recv, send_buffer,
  eagain, k_error,
}
use libserverkit.Net.Script.{arrived, HasRoom, AtMost}
use libserverkit.Net.Recv.{recv_refines}
use libserverkit.Net.Overrun.{send_past}

-- Buffer 1 leads to buffer 2; buffer 3 stands alone.
abbrev pub pool : Pool
pool = record {
  cell = λ a. record fresh_buffer { next = if a == 1 then 2 else 0 };
  brk = 4;
  free_list = [];
}

abbrev pub read_list : BufferList
read_list = record {
  read_inx = 0;
  write_inx = 0;
  head = 3;
  read = 3;
  write = 3;
  write_size = 0;
  read_size = 0;
}

abbrev pub write_list : BufferList
write_list = record {
  read_inx = 4095;
  write_inx = 0;
  head = 1;
  read = 1;
  write = 2;
  write_size = 4096;
  read_size = 4095;
}

pub read_list-Rep : Rep pool read_list (1 ∷ 2 ∷ []) [] []
unfolding slice reset new_buffer
read_list-Rep = record {
  valid = record {
    nodup = (refl, (refl, (refl, tt)));
    allocated = omega arith;
    positive = omega arith;
  };
  linked = tt;
  write_last = refl;
  head_read = refl;
  read_in = omega arith;
  write_in = omega arith;
  ordered = omega arith;
  contents = refl;
  small = omega arith;
  counted = refl;
  read_small = omega arith;
}

-- The write list with `n` bytes in its second buffer.
abbrev longer : ℕ → BufferList
longer n = record write_list { write_inx = n; write_size = 4096 + n }

longer-Rep : Rep pool (longer 2) (3 ∷ []) (2 ∷ []) (48 ∷ 48 ∷ 48 ∷ [])
unfolding slice reset new_buffer
longer-Rep = record {
  valid = record {
    nodup = (refl, (refl, (refl, tt)));
    allocated = omega arith;
    positive = omega arith;
  };
  linked = (refl, tt);
  write_last = refl;
  head_read = refl;
  read_in = omega arith;
  write_in = omega arith;
  ordered = omega arith;
  contents = refl;
  small = omega arith;
  counted = refl;
  read_small = omega arith;
}

-- Two bytes, an interrupt, one byte, and then nothing more for now.
abbrev pub reads : List ReadAnswer
reads = got (7 ∷ 8 ∷ []) ∷ read_failed 4 ∷ got (9 ∷ []) ∷ read_failed eagain ∷ []

pub reads-HasRoom : HasRoom reads pool read_list
unfolding writeable_size write_advance
reads-HasRoom = (omega arith, (omega arith, tt))

recv_refines_example :
    (r : Received) × (qs : List ℕ) × (recv reads 0 pool read_list ≡ some r)
    × (r.err ≡ eagain)
    × (r.result ≡ (if false then k_error else length (arrived reads) % 2 ^ 32))
    × Rep r.pool r.buffer (1 ∷ 2 ∷ []) qs ([] ++ arrived reads)
    × ((a : ℕ) → has a (1 ∷ 2 ∷ []) ≡ true → r.pool.cell a ≡ pool.cell a)
recv_refines_example =
    recv_refines reads 0 pool read_list (1 ∷ 2 ∷ []) [] [] false eagain read_list-Rep reads-HasRoom
      (omega arith) refl

-- Three bytes in buffer 2, behind a byte that was read.
abbrev pub one_buffer : BufferList
one_buffer = record {
  read_inx = 1;
  write_inx = 4;
  head = 2;
  read = 2;
  write = 2;
  write_size = 4;
  read_size = 1;
}

pub one_buffer-Rep : Rep pool one_buffer (1 ∷ 3 ∷ []) [] (48 ∷ 48 ∷ 48 ∷ [])
unfolding slice reset new_buffer
one_buffer-Rep = record {
  valid = record {
    nodup = (refl, (refl, (refl, tt)));
    allocated = omega arith;
    positive = omega arith;
  };
  linked = tt;
  write_last = refl;
  head_read = refl;
  read_in = omega arith;
  write_in = omega arith;
  ordered = omega arith;
  contents = refl;
  small = omega arith;
  counted = refl;
  read_small = omega arith;
}

-- An interrupt, then two bytes are taken, and then no more for now.
abbrev pub writes : List WriteAnswer
writes = write_failed 4 ∷ took 2 ∷ write_failed eagain ∷ []

pub writes-AtMost : AtMost writes 3
writes-AtMost = (omega arith, tt)

past : current_read_size (longer 2) < 2
unfolding current_read_size
past = omega arith

send_past_example :
    (r : Sent) × (send_buffer (took 2 ∷ write_failed eagain ∷ []) 0 pool (longer 2) ≡ some r)
    × (r.result ≡ 2 % 2 ^ 32)
    × ((others' qs ys : List ℕ) → ¬ Rep r.pool r.buffer others' qs ys)
send_past_example =
    send_past 2 0 pool (longer 2) (3 ∷ []) 2 [] (48 ∷ 48 ∷ 48 ∷ []) longer-Rep (omega arith) past
      (omega arith)
