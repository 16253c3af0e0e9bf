-- ===== src/BufferList/Advance.antt =====
-- `ReadAdvance` takes bytes off the front, over the end of a buffer or not.
use libserverkit.Base.{
  ℕ, ◌+◌, ◌-◌, ◌≤◌, ◌<◌, ◌≡◌, ◌≢◌, refl, sym, ap, ◌∙◌, true, false, inl, inr, List, [], ◌∷◌, ◌++◌,
  arith, update_ne, append_assoc, has, slice, slice_split, length-slice, length, length-append,
  has_apart, ne_of_has, IsNodup-left, Bytes, Bool-cases, ltb,
}
use libserverkit.ObjectPool.{free}
use libserverkit.ObjectPool.Laws.{free-IsValid}
use libserverkit.Buffer.{Buffer, buffer_size, reset}
use libserverkit.BufferList.{Pool, BufferList, current_read_size, peek, read_advance}
use libserverkit.BufferList.Chain.{view, Ordered, view-cong, Ordered-zero, Linked-cong}
use libserverkit.BufferList.Rep.{
  Rep, read_advance_stay, read_advance_pop, current_read_size_one, current_read_size_more,
  chain-IsNodup,
}

-- The state `t` after `block` was taken off the bytes `xs` held in `s`.
pub record Took (s : Pool) (others xs block : List ℕ) (t : Pool × BufferList) : Type 0 where
  pub chain : List ℕ
  pub left : List ℕ
  pub split : xs ≡ block ++ left
  pub rep : Rep t.0 t.1 others chain left
  pub kept : (a : ℕ) → has a others ≡ true → t.0.cell a ≡ s.cell a

module _ (n : ℕ) (s : Pool) (l : BufferList) (others : List ℕ) where
  stay-Took :
      (ps xs left : List ℕ)
      → Rep s l others ps xs
      → l.read_inx + n < buffer_size
      → Ordered (l.read_inx + n) l.write_inx ps
      → view s.cell (l.read_inx + n) l.write_inx l.read ps ≡ left
      → xs ≡ peek s l n ++ left
      → (k : Took s others xs (peek s l n) (read_advance n s l)) × (k.chain ≡ ps)
  unfolding peek
  stay-Took ps xs left r h o e split = rw (read_advance_stay n s l h) (
    (record {
      chain = ps;
      left = left;
      split = split;
      rep = record {
        valid = r.valid;
        linked = r.linked;
        write_last = r.write_last;
        head_read = r.head_read;
        read_in = h;
        write_in = r.write_in;
        ordered = o;
        contents = e;
        small = omega (arith, r.small, count);
        counted = omega (arith, r.counted, r.small, r.read_small, count);
        read_small = omega arith;
      };
      kept = λ a i. refl;
    }),
    refl,
  )
    where
      count : length xs ≡ n + length left
      count =
          ap length split
          ∙ length-append (peek s l n) left
          ∙ ap (λ k. k + length left) (length-slice (s.cell l.read).bytes l.read_inx n)

  -- A list in one buffer stays in it.
  pub read_advance-Took_one :
      (xs : List ℕ)
      → Rep s l others [] xs
      → n ≤ l.write_inx - l.read_inx
      → (k : Took s others xs (peek s l n) (read_advance n s l)) × (k.chain ≡ [])
  unfolding peek
  read_advance-Took_one xs r h =
      stay-Took [] xs
        (slice (s.cell l.read).bytes (l.read_inx + n) (l.write_inx - (l.read_inx + n))) r
        (omega (arith, r.ordered, r.write_in)) (omega (arith, r.ordered)) refl
        (sym r.contents
          ∙ slice_split (s.cell l.read).bytes l.read_inx (l.write_inx - l.read_inx) n h
          ∙ ap
              (λ k.
                slice (s.cell l.read).bytes l.read_inx n
                ++ slice (s.cell l.read).bytes (l.read_inx + n) k)
              (omega arith))

  read_advance-Took_stay :
      (q : ℕ) (ps xs : List ℕ)
      → Rep s l others (q ∷ ps) xs
      → l.read_inx + n < buffer_size
      → Took s others xs (peek s l n) (read_advance n s l)
  unfolding peek
  read_advance-Took_stay q ps xs r h =
      (stay-Took (q ∷ ps) xs
        (slice m (l.read_inx + n) (buffer_size - (l.read_inx + n))
          ++ view s.cell 0 l.write_inx q ps)
        r h (omega arith) refl
        (sym r.contents
          ∙ ap (λ b. b ++ view s.cell 0 l.write_inx q ps)
              (slice_split m l.read_inx (buffer_size - l.read_inx) n (omega arith)
                ∙ ap (λ k. slice m l.read_inx n ++ slice m (l.read_inx + n) k) (omega arith))
          ∙ append_assoc (slice m l.read_inx n) _ _)).0
    where
      m : Bytes
      m = (s.cell l.read).bytes

  freed_cell : (a : ℕ) → a ≢ l.read → (free reset l.read s).cell a ≡ s.cell a
  unfolding free
  freed_cell a h = update_ne s.cell l.read _ a h

  read_advance-Took_pop :
      (q : ℕ) (ps xs : List ℕ)
      → Rep s l others (q ∷ ps) xs
      → l.read_inx + n ≡ buffer_size
      → Took s others xs (peek s l n) (read_advance n s l)
  unfolding peek
  read_advance-Took_pop q ps xs r h =
      rw (read_advance_pop n s l h, r.linked.0)
        (record {
          chain = ps;
          left = view s.cell 0 l.write_inx q ps;
          split = split;
          rep = record {
            valid = free-IsValid reset l.read s others (q ∷ ps) r.valid;
            linked =
                Linked-cong s.cell (free reset l.read s).cell q ps
                  (λ a i. ap Buffer.next (same a i)) r.linked.1;
            write_last = r.write_last;
            head_read = refl;
            read_in = omega arith;
            write_in = r.write_in;
            ordered = Ordered-zero l.write_inx ps;
            contents =
                view-cong s.cell (free reset l.read s).cell 0 l.write_inx q ps
                  (λ a i. ap Buffer.bytes (same a i));
            small = omega (arith, r.small, count);
            counted = omega (arith, r.counted, r.small, r.read_small, count);
            read_small = omega arith;
          };
          kept = λ a i. freed_cell a (other a i);
        })
    where
      same : (a : ℕ) → has a (q ∷ ps) ≡ true → (free reset l.read s).cell a ≡ s.cell a
      same a i =
          freed_cell a (ne_of_has a l.read (q ∷ ps) i (chain-IsNodup s l others (q ∷ ps) xs r).0)

      other : (a : ℕ) → has a others ≡ true → a ≢ l.read
      other a i =
          let out : has a (l.read ∷ q ∷ ps) ≡ false =
            has_apart a others (l.read ∷ q ∷ ps)
              (IsNodup-left (others ++ l.read ∷ q ∷ ps) _ r.valid.nodup) i in
          λ e. ground arith

      split : xs ≡ slice (s.cell l.read).bytes l.read_inx n ++ view s.cell 0 l.write_inx q ps
      split =
          sym r.contents
          ∙ ap (λ k. slice (s.cell l.read).bytes l.read_inx k ++ view s.cell 0 l.write_inx q ps)
              (omega arith)

      count : length xs ≡ n + length (view s.cell 0 l.write_inx q ps)
      count =
          ap length split
          ∙ length-append (slice (s.cell l.read).bytes l.read_inx n) _
          ∙ ap (λ k. k + length (view s.cell 0 l.write_inx q ps))
              (length-slice (s.cell l.read).bytes l.read_inx n)

  read_advance-Took_more :
      (q : ℕ) (ps xs : List ℕ)
      → Rep s l others (q ∷ ps) xs
      → n ≤ buffer_size - l.read_inx
      → Took s others xs (peek s l n) (read_advance n s l)
  read_advance-Took_more q ps xs r h = elim (Bool-cases (ltb (l.read_inx + n) buffer_size)) [
    | inl e ↦ read_advance-Took_stay q ps xs r (ground arith)
    | inr e ↦ read_advance-Took_pop q ps xs r (ground (arith, r.read_in))
  ]

  -- Taking at most the current block yields the first bytes held, and leaves the others; buffers
  -- of other owners are untouched.
  pub read_advance-Took :
      (ps xs : List ℕ)
      → Rep s l others ps xs
      → n ≤ current_read_size l
      → Took s others xs (peek s l n) (read_advance n s l)
  read_advance-Took [] xs r h =
      (read_advance-Took_one xs r (omega (arith, current_read_size_one s l others xs r))).0
  read_advance-Took (q ∷ ps) xs r h =
      read_advance-Took_more q ps xs r (omega (arith, current_read_size_more s l others q ps xs r))
