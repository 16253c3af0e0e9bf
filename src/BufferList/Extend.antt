-- ===== src/BufferList/Extend.antt =====
-- A copy to the write point and `WriteAdvance` put bytes at the end, over the end of a buffer or
-- not.
use libserverkit.Base.{
  ℕ, ◌+◌, ◌-◌, ◌≤◌, ◌<◌, ◌≡◌, ◌≢◌, sym, ap, subst, ◌∙◌, true, false, inl, inr, List, [], ◌∷◌, ◌++◌,
  arith, update_ne, append_assoc, has, IsNodup, IsNodup-left, length, length-append, has_apart,
  has-append, Bool-cases, ltb, All, All-left,
}
use libserverkit.ObjectPool.{get}
use libserverkit.ObjectPool.Laws.{IsValid, get-Got, Got, Allocated, Allocated-has}
use libserverkit.Buffer.{Buffer, buffer_size}
use libserverkit.BufferList.{
  Pool, BufferList, size_mod, add_size, writeable_size, poke, write_advance, fresh_buffer,
}
use libserverkit.BufferList.Chain.{
  view, Linked, Ordered, has-last, last-append, Ordered-append, set_next, set_next-bytes, view-cong,
  Linked-cong, view-poked, view-extend, Linked-extend,
}
use libserverkit.BufferList.Rep.{Rep, chain-IsNodup}

-- The state `t` after the bytes `src` were put behind those held in `s`.
pub record Put (s : Pool) (others xs src : List ℕ) (t : Pool × BufferList) : Type 0 where
  pub chain : List ℕ
  pub rep : Rep t.0 t.1 others chain (xs ++ src)
  pub kept : (a : ℕ) → has a others ≡ true → t.0.cell a ≡ s.cell a

pub writeable_size_lem :
    (s : Pool) (l : BufferList) (others ps xs : List ℕ)
    → Rep s l others ps xs
    → writeable_size l ≡ buffer_size - l.write_inx
unfolding writeable_size
writeable_size_lem s l others ps xs r = omega (arith, r.write_in)

module _ (n : ℕ) (s : Pool) (l : BufferList) where
  write_advance_stay :
      l.write_inx + n < buffer_size
      → write_advance n s l
        ≡ (s, record l { write_inx = l.write_inx + n; write_size = add_size l.write_size n })
  unfolding write_advance
  write_advance_stay h = ground arith

  write_advance_new :
      l.write_inx + n ≡ buffer_size
      → write_advance n s l ≡ (
        record (get fresh_buffer s).1 {
          cell = set_next (get fresh_buffer s).1.cell l.write (get fresh_buffer s).0;
        },
        record l {
          write_inx = 0;
          write_size = add_size l.write_size n;
          write = (get fresh_buffer s).0;
        },
      )
  unfolding write_advance
  write_advance_new h = ground arith

module _ (s : Pool) (l : BufferList) (others ps xs src : List ℕ) (r : Rep s l others ps xs) where
  -- The state between the copy and the move of the write point.
  poked_view : view (poke s l src).cell l.read_inx (l.write_inx + length src) l.read ps ≡ xs ++ src
  unfolding poke
  poked_view = rw r.write_last (
      view-poked s.cell l.read_inx l.write_inx l.read ps src (chain-IsNodup s l others ps xs r)
        r.ordered
      ∙ ap (λ b. b ++ src) r.contents)

  poked_next : (a : ℕ) → ((poke s l src).cell a).next ≡ (s.cell a).next
  unfolding poke
  poked_next a = ground arith

  poked_Linked : Linked (poke s l src).cell l.read ps
  poked_Linked = Linked-cong s.cell (poke s l src).cell l.read ps (λ a i. poked_next a) r.linked

  write_ne : (a : ℕ) → has a others ≡ true → a ≢ l.write
  write_ne a i =
      let out : has a (l.read ∷ ps) ≡ false =
        has_apart a others (l.read ∷ ps)
          (IsNodup-left (others ++ l.read ∷ ps) s.free_list r.valid.nodup) i in
      λ e. ground (arith, has-last l.read ps, r.write_last)

  poked_kept : (a : ℕ) → has a others ≡ true → (poke s l src).cell a ≡ s.cell a
  unfolding poke
  poked_kept a i = update_ne s.cell l.write _ a (write_ne a i)

  poked-IsValid : IsValid (poke s l src) (others ++ l.read ∷ ps)
  unfolding poke
  poked-IsValid = record {
    nodup = r.valid.nodup;
    allocated = r.valid.allocated;
    positive = r.valid.positive;
  }

  Ordered-add : (k wi : ℕ) (ps : List ℕ) (ri : ℕ) → Ordered ri wi ps → Ordered ri (wi + k) ps
  Ordered-add k wi [] ri o = omega arith
  Ordered-add k wi (q ∷ ps) ri o = o

  write_stay-Put :
      length xs + length src < size_mod
      → l.write_inx + length src < buffer_size
      → Put s others xs src (write_advance (length src) (poke s l src) l)
  write_stay-Put small h = rw (write_advance_stay (length src) (poke s l src) l h) (record {
    chain = ps;
    rep = record {
      valid = poked-IsValid;
      linked = poked_Linked;
      write_last = r.write_last;
      head_read = r.head_read;
      read_in = r.read_in;
      write_in = h;
      ordered = Ordered-add (length src) l.write_inx ps l.read_inx r.ordered;
      contents = poked_view;
      small = omega (arith, length-append xs src);
      counted = omega (arith, r.counted, r.small, r.read_small, length-append xs src);
      read_small = r.read_small;
    };
    kept = poked_kept;
  })

  abbrev pool_got :
      Got
        (poke s l src)
        (others ++ l.read ∷ ps)
        (get fresh_buffer (poke s l src)).0
        (get fresh_buffer (poke s l src)).1
  pool_got = get-Got fresh_buffer (poke s l src) (others ++ l.read ∷ ps) poked-IsValid

  write_new-Put :
      length xs + length src < size_mod
      → l.write_inx + length src ≡ buffer_size
      → Put s others xs src (write_advance (length src) (poke s l src) l)
  write_new-Put small h = rw (write_advance_new (length src) (poke s l src) l h) (record {
    chain = ps ++ q ∷ [];
    rep = record {
      valid = record {
        nodup = subst (λ us. IsNodup (us ++ s₂.free_list)) grown pool_got.valid.nodup;
        allocated =
            subst (λ us. All (Allocated s₂.brk) (us ++ s₂.free_list)) grown
              pool_got.valid.allocated;
        positive = pool_got.valid.positive;
      };
      linked =
          subst (λ w. Linked (set_next s₂.cell w q) l.read (ps ++ q ∷ [])) (sym r.write_last)
            (Linked-extend s₂.cell l.read ps q (chain-IsNodup s l others ps xs r) (
              Linked-cong (poke s l src).cell s₂.cell l.read ps
                (λ a i. ap Buffer.next (chain_same a i)) poked_Linked));
      write_last = sym (last-append l.read ps q);
      head_read = r.head_read;
      read_in = r.read_in;
      write_in = omega arith;
      ordered = Ordered-append l.read_inx 0 ps q r.read_in;
      contents = grown_view;
      small = omega (arith, length-append xs src);
      counted = omega (arith, r.counted, r.small, r.read_small, length-append xs src);
      read_small = r.read_small;
    };
    kept = λ a i.
        update_ne s₂.cell l.write _ a (write_ne a i)
        ∙ same a (ground (arith, has-append a others (l.read ∷ ps)))
        ∙ poked_kept a i;
  })
    where
      q : ℕ
      q = (get fresh_buffer (poke s l src)).0

      s₂ : Pool
      s₂ = (get fresh_buffer (poke s l src)).1

      same : (a : ℕ) → has a (others ++ l.read ∷ ps) ≡ true → s₂.cell a ≡ (poke s l src).cell a
      same a i =
          pool_got.kept a
            (Allocated-has a (poke s l src).brk _ (All-left _ _ _ poked-IsValid.allocated) i).1

      chain_same : (a : ℕ) → has a (l.read ∷ ps) ≡ true → s₂.cell a ≡ (poke s l src).cell a
      chain_same a i = same a (ground (arith, has-append a others (l.read ∷ ps)))

      grown_view : view (set_next s₂.cell l.write q) l.read_inx 0 l.read (ps ++ q ∷ []) ≡ xs ++ src
      grown_view =
          view-extend (set_next s₂.cell l.write q) l.read_inx l.read ps q
          ∙ view-cong (poke s l src).cell (set_next s₂.cell l.write q) l.read_inx buffer_size l.read
              ps (λ a i. set_next-bytes s₂.cell l.write q a ∙ ap Buffer.bytes (chain_same a i))
          ∙ ap (λ k. view (poke s l src).cell l.read_inx k l.read ps) (sym h)
          ∙ poked_view

      grown : (others ++ l.read ∷ ps) ++ q ∷ [] ≡ others ++ l.read ∷ (ps ++ q ∷ [])
      grown = append_assoc others (l.read ∷ ps) (q ∷ [])

  -- Putting at most what the last buffer has room for appends it; buffers of other owners are
  -- untouched.
  pub write_advance-Put :
      length xs + length src < size_mod
      → length src ≤ writeable_size l
      → Put s others xs src (write_advance (length src) (poke s l src) l)
  write_advance-Put small h = elim (Bool-cases (ltb (l.write_inx + length src) buffer_size)) [
    | inl e ↦ write_stay-Put small (ground arith)
    | inr e ↦
        write_new-Put small (ground (arith, writeable_size_lem s l others ps xs r, r.write_in))
  ]
