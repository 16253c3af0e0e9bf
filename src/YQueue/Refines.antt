-- ===== src/YQueue/Refines.antt =====
-- The queue of chunks is a queue.
use libserverkit.Base.{ℕ, ◌<◌, ◌≡◌, refl, List, [], ◌∷◌, ◌++◌, subst, slice, arith}
use libserverkit.YQueue.{YQueue, Chunk, new_queue, front, set_back, push, un_push, pop}
use libserverkit.YQueue.Rep.{Rep}
use libserverkit.YQueue.Grow.{put_refines}
use libserverkit.YQueue.Shrink.{pop_refines}
use libserverkit.YQueue.Undo.{undo_refines}

-- A new queue holds nothing.
pub new_queue-Rep : (n : ℕ) (blank : ℕ → Chunk) → 0 < n → Rep n (new_queue blank) [] []
unfolding new_queue slice
new_queue-Rep n blank h = record {
  distinct = (refl, tt);
  no_null = refl;
  made = (omega arith, tt);
  spare = refl;
  spare_made = omega arith;
  memory = record {
    once = (refl, tt);
    no_null = refl;
    made = tt;
    apart = refl;
    known = λ a h i. ground arith;
    room = omega arith;
  };
  chained = tt;
  end_last = refl;
  begin_in = h;
  end_in = h;
  ordered = omega arith;
  contents = refl;
}

-- A queue that holds `xs`, in chunks of `n` values: after `Push` and an assignment to `Back` it holds
-- that value behind `xs`; where `xs` is not empty, `Front` is its first value, and after `Pop` the queue
-- holds the others; and after `Push` and `UnPush` it holds `xs` as before. Chunks are linked, handed on
-- as the spare chunk and used again on the way.
pub queue_refines :
    (n : ℕ) (q : YQueue) (ps xs : List ℕ)
    → Rep n q ps xs
    → ((x : ℕ) → (qs : List ℕ) × Rep n (set_back x (push n q)) qs (xs ++ x ∷ []))
      × ((x : ℕ) (ys : List ℕ)
          → xs ≡ x ∷ ys
          → (front q ≡ x) × ((qs : List ℕ) × Rep n (pop n q) qs ys))
      × ((qs : List ℕ) × Rep n (un_push n (push n q)) qs xs)
queue_refines n q ps xs r = (
  λ x. put_refines n q ps xs r x,
  λ x ys e. pop_refines n q ps x ys (subst (Rep n q ps) e r),
  (ps, undo_refines n q ps xs r),
)
