-- ===== src/Tests/Chunks.antt =====
-- A queue in chunks of two values.
use libserverkit.Base.{ℕ, ◌≡◌, refl, some, List, [], ◌∷◌, arith}
use libserverkit.YQueue.{
  YQueue, Chunk, new_queue, front, set_back, push, un_push, pop, fetch_chunk, destroy, destroy_loop,
}
use libserverkit.YQueue.Destroy.{Used, created, puts, takes, IsAll, destroy-IsAll}
use libserverkit.YQueue.Rep.{Rep}
use libserverkit.YQueue.Refines.{new_queue-Rep, queue_refines}

abbrev blank : ℕ → Chunk
blank a = record { values = λ i. 0; prev = 0; next = 0 }

abbrev put : ℕ → YQueue → YQueue
put x q = set_back x (push 2 q)

-- Three values are put, two taken and one more is put: the first chunk is used again as the third.
abbrev used : YQueue
used = put 8 (pop 2 (pop 2 (put 7 (put 6 (put 5 (new_queue blank))))))

used_run : (front used ≡ 7) × (used.end_chunk ≡ 1)
unfolding front set_back push pop new_queue fetch_chunk
used_run = (refl, refl)

abbrev one : YQueue
one = put 5 (new_queue blank)

queue_of_one : (qs : List ℕ) × Rep 2 one qs (5 ∷ [])
queue_of_one = (queue_refines 2 (new_queue blank) [] [] (new_queue-Rep 2 blank (omega arith))).0 5

queue_refines_example :
    ((x : ℕ) → (qs : List ℕ) × Rep 2 (set_back x (push 2 one)) qs (5 ∷ x ∷ []))
    × ((x : ℕ) (ys : List ℕ)
        → 5 ∷ [] ≡ x ∷ ys
        → (front one ≡ x) × ((qs : List ℕ) × Rep 2 (pop 2 one) qs ys))
    × ((qs : List ℕ) × Rep 2 (un_push 2 (push 2 one)) qs (5 ∷ []))
queue_refines_example = queue_refines 2 one queue_of_one.0 (5 ∷ []) queue_of_one.1

-- The destructor gives back the two chunks, one of which was used twice.
destroy_run : destroy used ≡ some (1 ∷ 2 ∷ [])
unfolding destroy destroy_loop set_back push pop new_queue fetch_chunk
destroy_run = refl

used-Used : Used 2 blank used (7 ∷ 8 ∷ [])
used-Used = puts 8 (takes 6 (takes 5 (puts 7 (puts 6 (puts 5 created)))))

destroy-IsAll_example : (freed : List ℕ) × (destroy used ≡ some freed) × IsAll used.brk freed
destroy-IsAll_example = destroy-IsAll 2 blank used (7 ∷ 8 ∷ []) (omega arith) used-Used
