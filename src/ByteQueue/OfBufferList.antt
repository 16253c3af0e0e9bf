-- ===== src/ByteQueue/OfBufferList.antt =====
-- A `BufferList` in its pool, beside the buffers of other owners, is such a queue.
use libserverkit.Base.{ℕ, Option, some, List, ◌>>=◌}
use libserverkit.BufferList.{Pool, BufferList, readable_size, read, write}
use libserverkit.BufferList.Rep.{Rep, readable_size-length}
use libserverkit.BufferList.ReadLoop.{read_refines}
use libserverkit.BufferList.WriteLoop.{write_refines}
use libserverkit.ByteQueue.{ByteQueue}

-- The pool and the list, for the buffers `others` of other owners.
abbrev pub Holds : List ℕ → Pool × BufferList → List ℕ → Type 0
Holds others (s, l) xs = (ps : List ℕ) × Rep s l others ps xs

abbrev pub read_list : ℕ → Pool × BufferList → Option (List ℕ × ℕ × (Pool × BufferList))
read_list n (s, l) = do (out, k, t, m) ← read n s l; some (out, k, (t, m))

abbrev pub write_list : List ℕ → Pool × BufferList → Option (ℕ × (Pool × BufferList))
write_list src (s, l) = do (k, t, m) ← write src s l; some (k, (t, m))

abbrev pub of_buffer_list : List ℕ → ByteQueue
of_buffer_list others = record {
  State = Pool × BufferList;
  Holds = Holds others;
  size = λ (s, l). readable_size l;
  read = read_list;
  write = write_list;
  size_lem = λ (s, l) xs (ps, r). readable_size-length s l others ps xs r;
  read_lem = λ n (s, l) xs (ps, r) h.
      let (t, m, qs, e, r', _) = read_refines n s l others ps xs r h in ((t, m), rw e, (qs, r'));
  write_lem = λ src (s, l) xs (ps, r) h.
      let (t, m, qs, e, r', _) = write_refines src s l others ps xs r h in ((t, m), rw e, (qs, r'));
}
