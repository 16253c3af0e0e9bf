-- ===== src/BufferList/Rep.antt =====
-- When a `BufferList` in the pool stands for a list of bytes, oldest first.
use libserverkit.Base.{
  ℕ, ◌+◌, ◌-◌, ◌<◌, ◌≡◌, List, [], ◌∷◌, ◌++◌, arith, IsNodup, IsNodup-left, IsNodup-right, length,
}
use libserverkit.ObjectPool.{free}
use libserverkit.ObjectPool.Laws.{IsValid}
use libserverkit.Buffer.{buffer_size, reset}
use libserverkit.BufferList.{
  Pool, BufferList, size_mod, add_size, readable_size, current_read_size, read_advance,
}
use libserverkit.BufferList.Chain.{view, Linked, last, Ordered, last-ne}

-- `ps` are the buffers behind the one that is read, `others` the buffers of other owners.
pub record Rep (s : Pool) (l : BufferList) (others ps xs : List ℕ) : Type 0 where
  pub valid : IsValid s (others ++ l.read ∷ ps)
  pub linked : Linked s.cell l.read ps
  pub write_last : l.write ≡ last l.read ps
  pub head_read : l.head ≡ l.read
  pub read_in : l.read_inx < buffer_size
  pub write_in : l.write_inx < buffer_size
  pub ordered : Ordered l.read_inx l.write_inx ps
  pub contents : view s.cell l.read_inx l.write_inx l.read ps ≡ xs
  pub small : length xs < size_mod
  pub counted : l.write_size ≡ add_size l.read_size (length xs)
  pub read_small : l.read_size < size_mod

-- The size reported is the number of bytes held, also after the counters have wrapped.
pub readable_size-length :
    (s : Pool) (l : BufferList) (others ps xs : List ℕ)
    → Rep s l others ps xs
    → readable_size l ≡ length xs
unfolding readable_size
readable_size-length s l others ps xs r = omega (arith, r.counted, r.small, r.read_small)

pub chain-IsNodup :
    (s : Pool) (l : BufferList) (others ps xs : List ℕ)
    → Rep s l others ps xs
    → IsNodup (l.read ∷ ps)
chain-IsNodup s l others ps xs r =
    IsNodup-right others (l.read ∷ ps)
      (IsNodup-left (others ++ l.read ∷ ps) s.free_list r.valid.nodup)

-- The block that `ReadPoint()` starts ends with the data, or with its buffer.
pub current_read_size_one :
    (s : Pool) (l : BufferList) (others xs : List ℕ)
    → Rep s l others [] xs
    → current_read_size l ≡ l.write_inx - l.read_inx
unfolding current_read_size
current_read_size_one s l others xs r =
    ground (arith, r.write_last, r.ordered, r.write_in, r.read_in)

pub current_read_size_more :
    (s : Pool) (l : BufferList) (others : List ℕ) (q : ℕ) (ps xs : List ℕ)
    → Rep s l others (q ∷ ps) xs
    → current_read_size l ≡ buffer_size - l.read_inx
unfolding current_read_size
current_read_size_more s l others q ps xs r =
    ground
      (arith, r.write_last, r.read_in, last-ne l.read q ps (chain-IsNodup s l others (q ∷ ps) xs r))

pub read_advance_stay :
    (n : ℕ) (s : Pool) (l : BufferList)
    → l.read_inx + n < buffer_size
    → read_advance n s l
      ≡ (s, record l { read_inx = l.read_inx + n; read_size = add_size l.read_size n })
unfolding read_advance
read_advance_stay n s l h = ground arith

pub read_advance_pop :
    (n : ℕ) (s : Pool) (l : BufferList)
    → l.read_inx + n ≡ buffer_size
    → read_advance n s l ≡ (
      free reset l.read s,
      record l {
        read_inx = 0;
        read_size = add_size l.read_size n;
        read = (s.cell l.read).next;
        head = (s.cell l.read).next;
      },
    )
unfolding read_advance
read_advance_pop n s l h = ground arith
