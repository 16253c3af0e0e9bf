-- ===== src/YQueue/Destroy.antt =====
-- What the destructor gives back.
use libserverkit.Base.{
  ℕ, zero, suc, ◌≤◌, ◌<◌, ◌≡◌, refl, ap, ◌∙◌, false, ◌&&◌, inl, inr, some, List, [], ◌∷◌, ◌++◌,
  arith, has, has-append, IsNodup, IsNodup-insert, All, All-has, length, Bool-cases, ◌==◌, ltb,
  ==_self, ==_ne, >>=_some,
}
use libserverkit.BufferList.Chain.{last, last-ne}
use libserverkit.YQueue.{
  YQueue, Chunk, new_queue, set_back, push, un_push, pop, give_back, destroy_loop, destroy,
}
use libserverkit.YQueue.Chunks.{Chunks, IsChain}
use libserverkit.YQueue.Rep.{Rep}
use libserverkit.YQueue.Refines.{new_queue-Rep, queue_refines}

-- The chunks of a list are given back one after another.
returned : List ℕ → List ℕ → List ℕ
returned [] freed = freed
returned (p ∷ ps) freed = returned ps (p ∷ freed)

has-returned : (a : ℕ) (ps freed : List ℕ) → has a (returned ps freed) ≡ has a (ps ++ freed)
unfolding returned
has-returned a [] freed = refl
has-returned a (p ∷ ps) freed =
    ground
      (arith, has-returned a ps (p ∷ freed), has-append a ps (p ∷ freed), has-append a ps freed)

returned-IsNodup : (ps freed : List ℕ) → IsNodup (ps ++ freed) → IsNodup (returned ps freed)
unfolding returned
returned-IsNodup [] freed h = h
returned-IsNodup (p ∷ ps) freed h =
    returned-IsNodup ps (p ∷ freed) (IsNodup-insert p ps freed h.0 h.1)

destroy_loop_lem :
    (fuel : ℕ) (c : Chunks) (p : ℕ) (ps freed : List ℕ)
    → length (p ∷ ps) ≤ fuel
    → IsNodup (p ∷ ps)
    → has 0 (p ∷ ps) ≡ false
    → IsChain c p ps
    → destroy_loop fuel c p (last p ps) freed ≡ some (returned (p ∷ ps) freed)
unfolding destroy_loop returned
destroy_loop_lem zero c p ps freed h d z k = absurd (omega arith)
destroy_loop_lem (suc fuel) c p [] freed h d z k =
    rw (==_self p) (rw (==_ne p 0 (ground arith)) refl)
destroy_loop_lem (suc fuel) c p (q ∷ ps) freed h d z k =
    rw (==_ne p (last q ps) (last-ne p q ps d), ==_ne p 0 (ground arith), k.0)
      (destroy_loop_lem fuel c q ps (p ∷ freed) (omega arith) d.1 (ground arith) k.1)

not_beyond : (a b : ℕ) (xs : List ℕ) → All (λ x. x < b) xs → ltb a b ≡ false → has a xs ≡ false
not_beyond a b xs h e = elim (Bool-cases (has a xs)) [
  | inl i ↦ absurd (ground (arith, All-has (λ x. x < b) a xs h i))
  | inr i ↦ i
]

-- The chunks that were allocated, each once, and nothing else
abbrev pub IsAll : ℕ → List ℕ → Type 0
IsAll brk freed = IsNodup freed × ((a : ℕ) → has a freed ≡ (ltb 0 a && ltb a brk))

module _ (n : ℕ) (q : YQueue) (ps xs : List ℕ) (r : Rep n q ps xs) where
  chain : List ℕ
  chain = q.begin_chunk ∷ ps

  loop_freed : List ℕ
  loop_freed = returned chain q.freed

  has-all : (a : ℕ) → has a (give_back q.spare_chunk loop_freed) ≡ (ltb 0 a && ltb a q.brk)
  unfolding chain loop_freed
  has-all a = ground (
    arith,
    has-returned a chain q.freed,
    has-append a chain q.freed,
    r.no_null,
    r.memory.no_null,
    not_beyond a q.brk chain r.made,
    not_beyond a q.brk q.freed r.memory.made,
    r.spare_made,
    r.memory.known a,
  )

  freed_once : IsNodup (give_back q.spare_chunk loop_freed)
  unfolding chain loop_freed
  freed_once =
      let once = returned-IsNodup chain q.freed r.memory.once in
      elim (Bool-cases (q.spare_chunk == 0)) [
        | inl e ↦ rw e once
        | inr e ↦ rw e (
          ground (
            arith,
            has-returned q.spare_chunk chain q.freed,
            has-append q.spare_chunk chain q.freed,
            r.spare,
            r.memory.apart,
          ),
          once,
        )
      ]

  pub destroy_lem : (freed : List ℕ) × (destroy q ≡ some freed) × IsAll q.brk freed
  unfolding destroy chain loop_freed
  destroy_lem =
      let ends =
        ap (λ e. destroy_loop q.brk q.chunk q.begin_chunk e q.freed) r.end_last
        ∙ destroy_loop_lem q.brk q.chunk q.begin_chunk ps q.freed (ground (arith, r.memory.room))
            r.distinct r.no_null r.chained in
      (give_back q.spare_chunk loop_freed, >>=_some _ _ ends refl, (freed_once, has-all))

-- The queues that come of a new one by a `Push` with an assignment to `Back`, by a `Pop` where a value
-- is held, and by a `Push` that `UnPush` takes back; and the values that are held.
pub data Used (n : ℕ) (blank : ℕ → Chunk) : YQueue → List ℕ → Type 0 where
  created : Used n blank (new_queue blank) []
  puts :
      {q : YQueue} {xs : List ℕ} (x : ℕ)
      → Used n blank q xs
      → Used n blank (set_back x (push n q)) (xs ++ x ∷ [])
  takes : {q : YQueue} {xs : List ℕ} (x : ℕ) → Used n blank q (x ∷ xs) → Used n blank (pop n q) xs
  undoes : {q : YQueue} {xs : List ℕ} → Used n blank q xs → Used n blank (un_push n (push n q)) xs

Used-Rep :
    (n : ℕ) (blank : ℕ → Chunk) {q : YQueue} {xs : List ℕ}
    → 0 < n
    → Used n blank q xs
    → (ps : List ℕ) × Rep n q ps xs
Used-Rep n blank h created = ([], new_queue-Rep n blank h)
Used-Rep n blank h (puts {q} {xs} x u) =
    let (ps, r) = Used-Rep n blank h u in (queue_refines n q ps xs r).0 x
Used-Rep n blank h (takes {q} {xs} x u) =
    let (ps, r) = Used-Rep n blank h u in ((queue_refines n q ps (x ∷ xs) r).1 x xs refl).1
Used-Rep n blank h (undoes {q} {xs} u) =
    let (ps, r) = Used-Rep n blank h u in (queue_refines n q ps xs r).2

-- On a new queue with chunks of at least one value, any sequence of `Push` with an assignment to
-- `Back`, of `Pop` where a value is held, and of `Push` with `UnPush`; then the destructor. It ends, and
-- of the chunks that were allocated by then each was given back once, and nothing else was.
pub destroy-IsAll :
    (n : ℕ) (blank : ℕ → Chunk) (q : YQueue) (xs : List ℕ)
    → 0 < n
    → Used n blank q xs
    → (freed : List ℕ) × (destroy q ≡ some freed) × IsAll q.brk freed
destroy-IsAll n blank q xs h u = let (ps, r) = Used-Rep n blank h u in destroy_lem n q ps xs r
