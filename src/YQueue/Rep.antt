-- ===== src/YQueue/Rep.antt =====
-- When a queue of chunks of `n` values stands for a list of values, oldest first.
use libserverkit.Base.{ℕ, ◌<◌, ◌≡◌, false, List, ◌∷◌, has, IsNodup, All}
use libserverkit.BufferList.Chain.{last}
use libserverkit.YQueue.{YQueue}
use libserverkit.YQueue.Memory.{Accounts}
use libserverkit.YQueue.Chunks.{IsChain, InOrder, held}

-- `ps` are the chunks behind the first one.
pub record Rep (n : ℕ) (q : YQueue) (ps xs : List ℕ) : Type 0 where
  pub distinct : IsNodup (q.begin_chunk ∷ ps)
  pub no_null : has 0 (q.begin_chunk ∷ ps) ≡ false
  pub made : All (λ a. a < q.brk) (q.begin_chunk ∷ ps)
  pub spare : has q.spare_chunk (q.begin_chunk ∷ ps) ≡ false
  pub spare_made : q.spare_chunk < q.brk
  pub memory : Accounts (q.begin_chunk ∷ ps) q.spare_chunk q.brk q.freed
  pub chained : IsChain q.chunk q.begin_chunk ps
  pub end_last : q.end_chunk ≡ last q.begin_chunk ps
  pub begin_in : q.begin_pos < n
  pub end_in : q.end_pos < n
  pub ordered : InOrder q.begin_pos q.end_pos ps
  pub contents : held n q.chunk q.begin_pos q.end_pos q.begin_chunk ps ≡ xs
