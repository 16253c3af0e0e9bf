-- ===== src/YQueue.antt =====
-- base/yqueue.h: a queue of values in a chain of chunks of `n` values each, with one spare chunk. A
-- pointer is an address, `NULL` is 0, and memory that is given back is not used again. A value is a
-- number; what stands in a new chunk is `blank`.
pub mod Chunks
pub mod Memory
pub mod Rep
pub mod Grow
pub mod Shrink
pub mod Undo
pub mod Refines
pub mod Destroy
use libserverkit.Base.{
  ℕ, zero, suc, ◌+◌, ◌-◌, not, ◌==◌, if◌then◌else◌, update, Option, none, some, List, [], ◌∷◌,
  ◌>>=◌,
}

pub record Chunk : Type 0 where
  pub values : ℕ → ℕ
  pub prev : ℕ
  pub next : ℕ

-- The memory of the chunks, with the next address that was never used and the chunks that were given
-- back, and the queue's members.
pub record YQueue : Type 0 where
  pub chunk : ℕ → Chunk
  pub brk : ℕ
  pub freed : List ℕ
  pub begin_chunk : ℕ
  pub begin_pos : ℕ
  pub back_chunk : ℕ
  pub back_pos : ℕ
  pub end_chunk : ℕ
  pub end_pos : ℕ
  pub spare_chunk : ℕ

abbrev pub set_next : ℕ → Chunk → Chunk
set_next next c = record c { next = next }

abbrev pub set_prev : ℕ → Chunk → Chunk
set_prev prev c = record c { prev = prev }

abbrev pub change : (ℕ → Chunk) → ℕ → (Chunk → Chunk) → ℕ → Chunk
change chunks a f = update chunks a (f (chunks a))

-- `free`, which does nothing for `NULL`
abbrev pub give_back : ℕ → List ℕ → List ℕ
give_back a freed = if a == 0 then freed else a ∷ freed

-- `YQueue()`
unfoldable pub new_queue : (ℕ → Chunk) → YQueue
new_queue blank = record {
  chunk = blank;
  brk = 2;
  freed = [];
  begin_chunk = 1;
  begin_pos = 0;
  back_chunk = 0;
  back_pos = 0;
  end_chunk = 1;
  end_pos = 0;
  spare_chunk = 0;
}

-- `Front`, and `Back` with an assignment to it
unfoldable pub front : YQueue → ℕ
front q = (q.chunk q.begin_chunk).values q.begin_pos

unfoldable pub set_back : ℕ → YQueue → YQueue
set_back x q = record q {
  chunk =
      change q.chunk q.back_chunk
        (λ (c : Chunk). record c { values = update c.values q.back_pos x });
}

-- The chunk that `Push` links behind the last one: the spare chunk, or a new one.
unfoldable pub fetch_chunk : YQueue → ℕ × YQueue
fetch_chunk q =
    if q.spare_chunk == 0
    then (q.brk, record q { brk = suc q.brk })
    else (q.spare_chunk, record q { spare_chunk = 0 })

module _ (n : ℕ) where
  -- `Push`
  unfoldable pub push : YQueue → YQueue
  unfolding fetch_chunk
  push q =
      let moved = record q {
        back_chunk = q.end_chunk;
        back_pos = q.end_pos;
        end_pos = suc q.end_pos;
      } in
      let (sc, got) = fetch_chunk moved in
      let linked = change (change got.chunk q.end_chunk (set_next sc)) sc (set_prev q.end_chunk) in
      if not (suc q.end_pos == n)
      then moved
      else record got { chunk = linked; end_chunk = sc; end_pos = 0 }

  -- `UnPush`
  unfoldable pub un_push : YQueue → YQueue
  un_push q =
      let before = (q.chunk q.end_chunk).prev in
      let goes_back = not (q.back_pos == 0) in
      let back = record q {
        back_pos = if goes_back then q.back_pos - 1 else n - 1;
        back_chunk = if goes_back then q.back_chunk else (q.chunk q.back_chunk).prev;
      } in
      if not (q.end_pos == 0) then record back { end_pos = q.end_pos - 1 } else record back {
        end_pos = n - 1;
        end_chunk = before;
        chunk = change q.chunk before (set_next 0);
        freed = give_back (q.chunk before).next q.freed;
      }

  -- `Pop`
  unfoldable pub pop : YQueue → YQueue
  pop q =
      let after = (q.chunk q.begin_chunk).next in
      if suc q.begin_pos == n
      then record q {
        begin_chunk = after;
        begin_pos = 0;
        chunk = change q.chunk after (set_prev 0);
        spare_chunk = q.begin_chunk;
        freed = give_back q.spare_chunk q.freed;
      }
      else record q { begin_pos = suc q.begin_pos }

-- The loop of the destructor, from the chunk `p` up to the last chunk `e`; `none` is a loop that does
-- not end within the fuel.
unfoldable pub destroy_loop : ℕ → (ℕ → Chunk) → ℕ → ℕ → List ℕ → Option (List ℕ)
destroy_loop zero chunks p e freed = none
destroy_loop (suc fuel) chunks p e freed =
    let rest = destroy_loop fuel chunks (chunks p).next e (give_back p freed) in
    if p == e then some (give_back p freed) else rest

-- `~YQueue`: what is given back when it is done. Each round takes a chunk, and there are fewer than
-- `brk`.
unfoldable pub destroy : YQueue → Option (List ℕ)
unfolding destroy_loop
destroy q = do
  freed ← destroy_loop q.brk q.chunk q.begin_chunk q.end_chunk q.freed
  some (give_back q.spare_chunk freed)
