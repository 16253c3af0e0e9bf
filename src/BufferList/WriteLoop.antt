-- ===== src/BufferList/WriteLoop.antt =====
-- The loop of `Write` ends, with all that it was given.
use libserverkit.Base.{
  ℕ, zero, suc, ◌+◌, ◌<◌, ◌≡◌, refl, sym, ap, subst, ◌∙◌, true, inl, inr, Option, some, List, ◌++◌,
  arith, append_assoc, append-nil, has, length, length-append, length-take, length-drop, take, drop,
  take-append-drop, eq-nil_of_length, Bool-cases, ltb→lt, ltb, ◌==◌,
}
use libserverkit.BufferList.{
  Pool, BufferList, size_mod, writeable_size, poke, write_advance, write_loop, write,
}
use libserverkit.BufferList.Rep.{Rep}
use libserverkit.BufferList.Extend.{Put, writeable_size_lem, write_advance-Put}

-- A run of the loop of `Write` that ends, with the bytes `src` behind those held.
record WriteLoop (s : Pool) (others xs src : List ℕ) (total : ℕ)
    (res : Option (ℕ × Pool × BufferList)) : Type 0 where
  pool : Pool
  list : BufferList
  chain : List ℕ
  result : res ≡ some (total + length src, pool, list)
  rep : Rep pool list others chain (xs ++ src)
  kept : (a : ℕ) → has a others ≡ true → pool.cell a ≡ s.cell a

module _ {s : Pool} {others xs src : List ℕ} where
  nothing_more :
      (total : ℕ) (l : BufferList) (ps : List ℕ)
      → Rep s l others ps xs
      → length src ≡ 0
      → WriteLoop s others xs src total (some (total, s, l))
  nothing_more total l ps r h = record {
    pool = s;
    list = l;
    chain = ps;
    result = ap (λ k. some (k, s, l)) (omega arith);
    rep = subst (Rep s l others ps) (sym (ap (◌++◌ xs) (eq-nil_of_length src h) ∙ append-nil xs)) r;
    kept = λ a i. refl;
  }

  fits :
      (total : ℕ) (t : Pool × BufferList)
      → Put s others xs src t
      → WriteLoop s others xs src total (some (total + length src, t.0, t.1))
  fits total t p = record {
    pool = t.0;
    list = t.1;
    chain = p.chain;
    result = refl;
    rep = p.rep;
    kept = p.kept;
  }

  -- The last buffer is filled with `block`, and the loop goes on.
  fills :
      (total size : ℕ) (block later : List ℕ) (t : Pool × BufferList)
      (res : Option (ℕ × Pool × BufferList))
      → Put s others xs block t
      → src ≡ block ++ later
      → length block ≡ size
      → WriteLoop t.0 others (xs ++ block) later (total + size) res
      → WriteLoop s others xs src total res
  fills total size block later t res p e h r = record {
    pool = r.pool;
    list = r.list;
    chain = r.chain;
    result =
        r.result
        ∙ ap (λ k. some (k, r.pool, r.list))
            (omega (arith, ap length e, length-append block later));
    rep =
        subst (Rep r.pool r.list others r.chain)
          (append_assoc xs block later ∙ ap (◌++◌ xs) (sym e)) r.rep;
    kept = λ a i. r.kept a i ∙ p.kept a i;
  }

module _ (others : List ℕ) where
  write_loop-WriteLoop :
      (fuel : ℕ) (src : List ℕ) (total : ℕ) (s : Pool) (l : BufferList) (ps xs : List ℕ)
      → Rep s l others ps xs
      → length src < fuel
      → length xs + length src < size_mod
      → WriteLoop s others xs src total (write_loop fuel src total s l)
  unfolding write_loop
  write_loop-WriteLoop zero src total s l ps xs r h small = absurd (omega arith)
  write_loop-WriteLoop (suc fuel) src total s l ps xs r h small =
      elim (Bool-cases (length src == 0)) [
        | inl e ↦ rw e (nothing_more total l ps r (ground arith))
        | inr more ↦ rw more (elim (Bool-cases (ltb (writeable_size l) (length src))) [
          | inl e ↦ rw e (
              let size = writeable_size l in
              let block = take size src in
              let cut : length block ≡ size = omega (arith, length-take size src, ltb→lt _ _ e) in
              let p =
                write_advance-Put s l others ps xs block r (omega (arith, ltb→lt _ _ e, cut))
                  (omega (arith, cut)) in
              let p' =
                subst (λ k. Put s others xs block (write_advance k (poke s l block) l)) cut p in
              fills total size block (drop size src) _ _ p' (sym (take-append-drop size src)) cut (
                write_loop-WriteLoop fuel (drop size src) (total + size) _ _ p'.chain (xs ++ block)
                  p'.rep
                  (omega (
                    arith,
                    length-drop size src,
                    writeable_size_lem s l others ps xs r,
                    r.write_in,
                    ltb→lt _ _ e,
                  ))
                  (omega (arith, length-drop size src, length-append xs block, cut, ltb→lt _ _ e))))
          | inr e ↦
              rw e (fits total _ (write_advance-Put s l others ps xs src r small (ground arith)))
        ])
      ]

-- For a list that holds the bytes `xs`, with fewer than 2^64 bytes in all: `Write` ends and takes
-- every byte of `src`. The list then holds `xs` followed by `src`, and no buffer of another owner
-- is changed.
pub write_refines :
    (src : List ℕ) (s : Pool) (l : BufferList) (others ps xs : List ℕ)
    → Rep s l others ps xs
    → length xs + length src < size_mod
    → (t : Pool) × (m : BufferList) × (qs : List ℕ) × (write src s l ≡ some (length src, t, m))
      × Rep t m others qs (xs ++ src)
      × ((a : ℕ) → has a others ≡ true → t.cell a ≡ s.cell a)
unfolding write
write_refines src s l others ps xs r h =
    let k = write_loop-WriteLoop others (suc (length src)) src 0 s l ps xs r (omega arith) h in
    (
      k.pool,
      k.list,
      k.chain,
      k.result ∙ ap (λ c. some (c, k.pool, k.list)) (omega arith),
      k.rep,
      k.kept,
    )
