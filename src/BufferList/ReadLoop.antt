-- ===== src/BufferList/ReadLoop.antt =====
-- The loop of `Read` ends, with what was asked for or what there is.
use libserverkit.Base.{
  ℕ, zero, suc, ◌-◌, ◌≤◌, ◌<◌, ◌≡◌, ◌≢◌, refl, sym, ap, ap₂, subst, ◌∙◌, true, inl, inr, Option,
  some, List, [], ◌∷◌, ◌++◌, arith, append_assoc, append-nil, has, length-slice, length,
  length-append, take, drop, take_past, drop_past, eq-nil_of_length, take_all, drop_all, Bool-cases,
  ltb, ◌==◌,
}
use Prim.Native.Nat.{min}
use libserverkit.BufferList.{
  Pool, BufferList, size_mod, readable_size, current_read_size, peek, read_advance, read_loop, read,
  finish_read,
}
use libserverkit.BufferList.Rep.{
  Rep, readable_size-length, current_read_size_one, current_read_size_more,
}
use libserverkit.BufferList.Advance.{Took, read_advance-Took}

-- Where there is something to read, the current block is not empty.
current_read_size_pos :
    (s : Pool) (l : BufferList) (others ps xs : List ℕ)
    → Rep s l others ps xs
    → length xs ≢ 0
    → 0 < current_read_size l
current_read_size_pos s l others [] xs r h = omega (
  arith,
  current_read_size_one s l others xs r,
  ap length r.contents,
  length-slice (s.cell l.read).bytes l.read_inx (l.write_inx - l.read_inx),
)
current_read_size_pos s l others (q ∷ ps) xs r h =
    omega (arith, current_read_size_more s l others q ps xs r, r.read_in)

length-peek : (s : Pool) (l : BufferList) (n : ℕ) → length (peek s l n) ≡ n
unfolding peek
length-peek s l n = length-slice (s.cell l.read).bytes l.read_inx n

-- A run of the loop of `Read` that ends, with the first `n` bytes or all there are.
record ReadLoop (s : Pool) (others out xs : List ℕ) (n : ℕ)
    (res : Option (List ℕ × ℕ × Pool × BufferList)) : Type 0 where
  pool : Pool
  list : BufferList
  chain : List ℕ
  result : res ≡ some (out ++ take n xs, n - length xs, pool, list)
  rep : Rep pool list others chain (drop n xs)
  kept : (a : ℕ) → has a others ≡ true → pool.cell a ≡ s.cell a

module _ {s : Pool} {others out xs : List ℕ} where
  -- The loop ends with `n` equal to 0.
  none_left :
      (n : ℕ) (l : BufferList) (ps : List ℕ)
      → Rep s l others ps xs
      → n ≡ 0
      → ReadLoop s others out xs n (some (out, 0, s, l))
  none_left zero l ps r h = record {
    pool = s;
    list = l;
    chain = ps;
    result =
        ap (λ o. some (o, 0, s, l)) (sym (append-nil out))
        ∙ ap (λ k. some (out ++ [], k, s, l)) (omega arith);
    rep = r;
    kept = λ a i. refl;
  }
  none_left (suc n) l ps r h = absurd (omega arith)

  -- The loop ends since nothing is readable.
  nothing_there :
      (n : ℕ) (l : BufferList) (ps : List ℕ)
      → Rep s l others ps xs
      → length xs ≡ 0
      → ReadLoop s others out xs n (some (out, n, s, l))
  nothing_there n l ps r h = record {
    pool = s;
    list = l;
    chain = ps;
    result =
        ap (λ o. some (o, n, s, l))
          (sym (append-nil out)
            ∙ ap (◌++◌ out) (sym (take_all n xs (omega arith) ∙ eq-nil_of_length xs h)))
        ∙ ap (λ k. some (out ++ take n xs, k, s, l)) (omega (arith, h));
    rep = subst (Rep s l others ps) (eq-nil_of_length xs h ∙ sym (drop_all n xs (omega arith))) r;
    kept = λ a i. refl;
  }

module _ {s : Pool} {others out xs : List ℕ} where
  -- The current block is taken whole, and the loop goes on.
  whole_block :
      (n size : ℕ) (block : List ℕ) (t : Pool × BufferList)
      (res : Option (List ℕ × ℕ × Pool × BufferList))
      → (k : Took s others xs block t) → length block ≡ size
      → size ≤ n
      → ReadLoop t.0 others (out ++ block) k.left (n - size) res
      → ReadLoop s others out xs n res
  whole_block n size block t res k e h r = record {
    pool = r.pool;
    list = r.list;
    chain = r.chain;
    result =
        r.result
        ∙ ap₂ (λ o m. some (o, m, r.pool, r.list))
            (append_assoc out block _ ∙ ap (◌++◌ out) (sym taken))
            (omega (arith, ap length k.split, length-append block k.left));
    rep = subst (Rep r.pool r.list others r.chain) (sym dropped) r.rep;
    kept = λ a i. r.kept a i ∙ k.kept a i;
  }
    where
      taken : take n xs ≡ block ++ take (n - size) k.left
      taken =
          ap (take n) k.split
          ∙ take_past n block k.left (omega arith)
          ∙ ap (λ m. block ++ take (n - m) k.left) e

      dropped : drop n xs ≡ drop (n - size) k.left
      dropped =
          ap (drop n) k.split
          ∙ drop_past n block k.left (omega arith)
          ∙ ap (λ m. drop (n - m) k.left) e

  -- The current block holds all that is still asked for.
  last_block :
      (n : ℕ) (l : BufferList)
      → Took s others xs (peek s l n) (read_advance n s l)
      → ReadLoop s others out xs n
          (some (out ++ peek s l n, 0, (read_advance n s l).0, (read_advance n s l).1))
  last_block n l t =
      whole_block n n (peek s l n) (read_advance n s l) _ t (length-peek s l n) (omega arith)
        (none_left (n - n) (read_advance n s l).1 t.chain t.rep (omega arith))

module _ (others : List ℕ) where
  read_loop-ReadLoop :
      (fuel n : ℕ) (out : List ℕ) (s : Pool) (l : BufferList) (ps xs : List ℕ)
      → Rep s l others ps xs
      → n < fuel
      → ReadLoop s others out xs n (read_loop fuel n out s l)
  unfolding read_loop
  read_loop-ReadLoop zero n out s l ps xs r h = absurd (omega arith)
  read_loop-ReadLoop (suc fuel) n out s l ps xs r h = elim (Bool-cases (n == 0)) [
    | inl e ↦ rw e (none_left n l ps r (ground arith))
    | inr more ↦ rw more (elim (Bool-cases (readable_size l == 0)) [
      | inl e ↦
          rw e (nothing_there n l ps r (ground (arith, readable_size-length s l others ps xs r)))
      | inr some_there ↦ rw some_there (elim (Bool-cases (ltb (current_read_size l) n)) [
        | inl e ↦ rw e (
            let t = read_advance-Took (current_read_size l) s l others ps xs r (omega arith) in
            whole_block n (current_read_size l) _ (read_advance (current_read_size l) s l) _ t
              (length-peek s l (current_read_size l)) (ground arith)
              (read_loop-ReadLoop fuel (n - current_read_size l) _ _ _ t.chain t.left t.rep (
                ground (
                  arith,
                  current_read_size_pos s l others ps xs r,
                  readable_size-length s l others ps xs r,
                ))))
        | inr e ↦ rw e (last_block n l (read_advance-Took n s l others ps xs r (ground arith)))
      ])
    ])
  ]

-- For a list that holds the bytes `xs` and a size `n` below 2^64: `Read` ends and returns the first
-- `n` bytes of `xs`, or all of them if there are fewer, with their number. The list then holds the
-- other bytes, in order, and no buffer of another owner is changed.
pub read_refines :
    (n : ℕ) (s : Pool) (l : BufferList) (others ps xs : List ℕ)
    → Rep s l others ps xs
    → n < size_mod
    → (t : Pool) × (m : BufferList) × (qs : List ℕ) × (read n s l
        ≡ some (take n xs, min n (length xs), t, m))
      × Rep t m others qs (drop n xs)
      × ((a : ℕ) → has a others ≡ true → t.cell a ≡ s.cell a)
unfolding read
read_refines n s l others ps xs r h =
    let k = read_loop-ReadLoop others (suc n) n [] s l ps xs r (omega arith) in
    (
      k.pool,
      k.list,
      k.chain,
      ap (finish_read n) k.result ∙ ap (λ c. some (take n xs, c, k.pool, k.list)) (omega arith),
      k.rep,
      k.kept,
    )
