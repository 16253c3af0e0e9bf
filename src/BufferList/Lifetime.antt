-- ===== src/BufferList/Lifetime.antt =====
-- The constructor and the destructor of `BufferList`.
use libserverkit.Base.{
  ℕ, zero, suc, ◌+◌, ◌<◌, ◌≡◌, ◌≢◌, refl, sym, ap, subst, ◌∙◌, true, false, Option, some, List, [],
  ◌∷◌, ◌++◌, arith, append-nil, has, has-append, has_apart, IsNodup, IsNodup-left, IsNodup-right,
  All, All-left, All-right, length, Bytes, slice, length-slice, eq-nil_of_length, ==_ne, update_ne,
  ne_of_has,
}
use libserverkit.ObjectPool.{null, free}
use libserverkit.ObjectPool.Laws.{
  IsValid, free-IsValid, get-Got, get_recycled, Allocated, Allocated-has,
}
use libserverkit.Buffer.{Buffer, buffer_size, reset}
use libserverkit.BufferList.{
  Pool, BufferList, fresh_buffer, new_list, peek, read_advance, destroy_loop, destroy,
}
use libserverkit.BufferList.Chain.{Linked, last, Linked-cong, has-last}
use libserverkit.BufferList.Rep.{Rep, read_advance_pop, current_read_size_more, chain-IsNodup}
use libserverkit.BufferList.Advance.{read_advance-Took}

-- A new list is empty and owns one buffer, which nobody else has.
pub new_list_refines :
    (s : Pool) (others : List ℕ)
    → IsValid s others
    → Rep (new_list s).0 (new_list s).1 others [] []
      × ((a : ℕ) → has a others ≡ true → (new_list s).0.cell a ≡ s.cell a)
unfolding new_list
new_list_refines s others v =
    let g = get-Got fresh_buffer s others v in
    (
      record {
        valid = g.valid;
        linked = tt;
        write_last = refl;
        head_read = refl;
        read_in = omega arith;
        write_in = omega arith;
        ordered = omega arith;
        contents = slice_none _ _;
        small = omega arith;
        counted = omega arith;
        read_small = omega arith;
      },
      λ a i.
          g.kept a (Allocated-has a s.brk others (All-left _ others s.free_list v.allocated) i).1,
    )
  where
    slice_none : (m : Bytes) (off : ℕ) → slice m off 0 ≡ []
    slice_none m off = eq-nil_of_length _ (length-slice m off 0)

freed_cell : (p : ℕ) (s : Pool) (a : ℕ) → a ≢ p → (free reset p s).cell a ≡ s.cell a
unfolding free
freed_cell p s a h = update_ne s.cell p _ a h

freed_next : (p : ℕ) (s : Pool) → ((free reset p s).cell p).next ≡ (s.cell p).next
unfolding free reset
freed_next p s = ground arith

-- The facts about the first buffer of a chain.
record First (s : Pool) (others : List ℕ) (p : ℕ) (ps : List ℕ) : Type 0 where
  ne_null : p ≢ null
  alone : has p ps ≡ false
  foreign : (a : ℕ) → has a others ≡ true → a ≢ p

first :
    (s : Pool) (others : List ℕ) (p : ℕ) (ps : List ℕ)
    → IsValid s (others ++ p ∷ ps)
    → First s others p ps
first s others p ps v = record {
  ne_null =
      (All-right (Allocated s.brk) others (p ∷ ps) (All-left _ _ s.free_list v.allocated)).0.0;
  alone = (IsNodup-right others (p ∷ ps) apart).0;
  foreign = λ a i. let out = has_apart a others (p ∷ ps) apart i in λ e. ground arith;
}
  where
    apart : IsNodup (others ++ p ∷ ps)
    apart = IsNodup-left (others ++ p ∷ ps) s.free_list v.nodup

-- A pool in which the buffers that were freed are nobody's, and those of others are untouched.
abbrev Destroyed : Pool → List ℕ → Option Pool → Type 0
Destroyed s others res =
    (t : Pool) × (res ≡ some t)
    × IsValid t others
    × ((a : ℕ) → has a others ≡ true → t.cell a ≡ s.cell a)

-- The walk from `p` along a chain that ends in `NULL` frees that chain.
destroy_chain :
    (fuel : ℕ) (s : Pool) (others : List ℕ) (p : ℕ) (ps : List ℕ)
    → IsValid s (others ++ p ∷ ps)
    → Linked s.cell p ps
    → (s.cell (last p ps)).next ≡ null
    → length ps + 1 < fuel
    → Destroyed s others (destroy_loop fuel p s)
unfolding destroy_loop
destroy_chain zero s others p ps v k e h = absurd (omega arith)
destroy_chain (suc zero) s others p ps v k e h = absurd (omega arith)
destroy_chain (suc (suc fuel)) s others p [] v k e h =
    let f = first s others p [] v in
    rw (==_ne p null f.ne_null, e)
      (
        free reset p s,
        refl,
        subst (IsValid (free reset p s)) (append-nil others) (free-IsValid reset p s others [] v),
        λ a i. freed_cell p s a (f.foreign a i),
      )
destroy_chain (suc (suc fuel)) s others p (q ∷ ps) v k e h =
    let f = first s others p (q ∷ ps) v in
    let same =
      λ (a : ℕ) (i : has a (q ∷ ps) ≡ true). freed_cell p s a (ne_of_has a p (q ∷ ps) i f.alone) in
    let (t, g, w, kept) =
      destroy_chain (suc fuel) (free reset p s) others q ps
        (free-IsValid reset p s others (q ∷ ps) v)
        (Linked-cong s.cell (free reset p s).cell q ps (λ a i. ap Buffer.next (same a i)) k.1)
        (ap Buffer.next (same (last q ps) (has-last q ps)) ∙ e) (omega arith) in
    rw (==_ne p null f.ne_null, k.0) (t, g, w, λ a i. kept a i ∙ freed_cell p s a (f.foreign a i))

-- Where the last buffer's `next_` is `NULL`, the destructor gives back the list's own buffers and
-- no others.
pub destroy_refines :
    (fuel : ℕ) (s : Pool) (l : BufferList) (others ps xs : List ℕ)
    → Rep s l others ps xs
    → (s.cell l.write).next ≡ null
    → length ps + 1 < fuel
    → Destroyed s others (destroy fuel s l)
unfolding destroy
destroy_refines fuel s l others ps xs r e h = rw r.head_read (
    destroy_chain fuel s others l.read ps r.valid r.linked
      (ap (λ w. (s.cell w).next) (sym r.write_last) ∙ e) h)

destroy_step :
    (fuel p q : ℕ) (s : Pool)
    → p ≢ null
    → (s.cell p).next ≡ q
    → destroy_loop (suc fuel) p s ≡ destroy_loop fuel q (free reset p s)
unfolding destroy_loop
destroy_step fuel p q s h e = rw (==_ne p null h) (ap (λ k. destroy_loop fuel k (free reset p s)) e)

destroy_end : (fuel : ℕ) (s : Pool) → destroy_loop (suc fuel) null s ≡ some s
unfolding destroy_loop
destroy_end fuel s = refl

has-freed : (p : ℕ) (s : Pool) → has p (free reset p s).free_list ≡ true
unfolding free
has-freed p s = ground (arith, has-append p s.free_list (p ∷ []))

-- A list that is given a buffer with a link: its destructor follows the link.
destroy_linked :
    (fuel : ℕ) (s : Pool) (p q : ℕ) (rest others : List ℕ)
    → IsValid s others
    → s.free_list ≡ p ∷ rest
    → (s.cell p).next ≡ q
    → (s.cell q).next ≡ null
    → has q others ≡ true
    → (t : Pool) × (destroy (suc (suc (suc fuel))) (new_list s).0 (new_list s).1 ≡ some t)
      × (has q t.free_list ≡ true)
unfolding destroy new_list
destroy_linked fuel s p q rest others v e link end owned = (
  free reset q (free reset p s'),
  ap (λ g. destroy_loop (suc (suc (suc fuel))) g.0 g.1) (get_recycled fresh_buffer s p rest e)
      ∙ destroy_step (suc (suc fuel)) p q s' p_ne_null link
      ∙ destroy_step (suc fuel) q null (free reset p s')
          (Allocated-has q s.brk others (All-left _ others s.free_list v.allocated) owned).0
          (ap Buffer.next (freed_cell p s' q apart) ∙ end)
      ∙ destroy_end fuel _,
  has-freed q (free reset p s'),
)
  where
    s' : Pool
    s' = record s { free_list = rest }

    p_ne_null : p ≢ null
    p_ne_null = (subst (All (Allocated s.brk)) e (All-right _ others s.free_list v.allocated)).0.0

    apart : q ≢ p
    apart =
        let out : has q s.free_list ≡ false = has_apart q others s.free_list v.nodup owned in
        λ z. ground (arith, ap (has q) e)

-- A list of two buffers, the last of which has no link, in a pool where nothing waits to be used again.
-- The first buffer is read to its end: the list goes on reading in the second one, and holds what it
-- held behind the bytes read. Then a new list is made and destroyed: its destructor ends, and it has given the
-- second buffer, which is the other list's, back to the pool.
pub destroy_stale :
    (fuel n : ℕ) (s : Pool) (l : BufferList) (others : List ℕ) (q : ℕ) (xs : List ℕ)
    → Rep s l others (q ∷ []) xs
    → s.free_list ≡ []
    → (s.cell q).next ≡ null
    → l.read_inx + n ≡ buffer_size
    → let (t, m) = read_advance n s l in
      let (u, k) = new_list t in
      (m.read ≡ q)
      × ((qs left : List ℕ) × (xs ≡ peek s l n ++ left) × Rep t m others qs left)
      × ((v : Pool) × (destroy (suc (suc (suc fuel))) u k ≡ some v) × (has q v.free_list ≡ true))
unfolding free
destroy_stale fuel n s l others q xs r none_free end h =
    let t = free reset l.read s in
    let took =
      read_advance-Took n s l others (q ∷ []) xs r
        (omega (arith, r.read_in, current_read_size_more s l others q [] xs r)) in
    let other : q ≢ l.read = λ e. ground (arith, (chain-IsNodup s l others (q ∷ []) xs r).0) in
    let moved = read_advance_pop n s l h in
    (
      ap (λ (g : Pool × BufferList). g.1.read) moved ∙ r.linked.0,
      (took.chain, took.left, took.split, took.rep),
      subst
          (λ (g : Pool).
            (v : Pool) × (destroy (suc (suc (suc fuel))) (new_list g).0 (new_list g).1 ≡ some v)
            × (has q v.free_list ≡ true))
          (sym (ap (λ (g : Pool × BufferList). g.0) moved))
          (destroy_linked fuel t l.read q [] (others ++ q ∷ [])
            (free-IsValid reset l.read s others (q ∷ []) r.valid) (freed_first l.read s none_free)
            (freed_next l.read s ∙ r.linked.0) (ap Buffer.next (freed_cell l.read s q other) ∙ end)
            (ground (arith, has-append q others (q ∷ [])))),
    )
  where
    freed_first : (p : ℕ) (s' : Pool) → s'.free_list ≡ [] → (free reset p s').free_list ≡ p ∷ []
    freed_first p s' e = ap (λ ps. ps ++ p ∷ []) e
