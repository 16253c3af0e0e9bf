-- ===== src/GlobalId.antt =====
-- util/global_id.h and util/global_id.cc: identifiers in batches of 4096. The hash of
-- util/lookup8.cc is a parameter, and so is what the system says: `seed_of_host` is the hash of the
-- host's name with the time and the process as key, and a reading is what `CurrentMs` gives. The
-- mask `kBatchMask` takes a number modulo 4096.
pub mod Batch
use libserverkit.Base.{
  ℕ, zero, suc, ◌+◌, ◌-◌, ◌*◌, ◌%◌, ◌≡◌, Bool, true, false, List, [], ◌∷◌, ◌==◌, if◌then◌else◌,
}

abbrev pub num_ids_in_batch : ℕ
num_ids_in_batch = 4096

pub record IdGenerator : Type 0 where
  pub upper_bits : ℕ
  pub seed : ℕ
  pub lower_bits : ℕ
  pub increment : ℕ
  pub remaining : ℕ
  pub initialized : Bool

-- A thread's generator before its first use: the storage is zero.
abbrev pub new_generator : IdGenerator
new_generator = record {
  upper_bits = 0;
  seed = 0;
  lower_bits = 0;
  increment = 0;
  remaining = 0;
  initialized = false;
}

-- `increment_ |= 1`
abbrev pub set_low_bit : ℕ → ℕ
set_low_bit n = if n % 2 == 0 then n + 1 else n

-- `NewID` once there is an identifier left; the two parts of the identifier share no bit, so `|` is
-- a sum.
unfoldable pub take_id : IdGenerator → ℕ × IdGenerator
take_id g =
    let lower = (g.lower_bits + g.increment) % num_ids_in_batch in
    (g.upper_bits + lower, record g { lower_bits = lower; remaining = g.remaining - 1 })

module _ (hash : ℕ → ℕ → ℕ) (seed_of_host : ℕ) where
  -- `init`
  unfoldable pub init : IdGenerator → IdGenerator
  init g = record g { initialized = true; seed = seed_of_host }

  -- `newRandom`, at the reading `now`. The result is the new seed.
  unfoldable pub new_random : ℕ → IdGenerator → IdGenerator
  unfolding init
  new_random now g =
      let g' = if g.initialized then g else init g in record g' { seed = hash now g'.seed }

  -- `reset`, with a reading for each of its two random numbers
  unfoldable pub reset : ℕ × ℕ → IdGenerator → IdGenerator
  unfolding new_random
  reset (t, u) g =
      let v = new_random t g in
      let w = new_random u v in
      record w {
        upper_bits = v.seed - v.seed % num_ids_in_batch;
        lower_bits = v.seed % num_ids_in_batch;
        increment = set_low_bit (w.seed % num_ids_in_batch);
        remaining = num_ids_in_batch;
      }

  -- `NewID`
  unfoldable pub new_id : ℕ × ℕ → IdGenerator → ℕ × IdGenerator
  unfolding reset take_id
  new_id ts g = if g.remaining == 0 then take_id (reset ts g) else take_id g

  -- One call of `NewGlobalID` after the other, at the given readings
  unfoldable pub new_ids : List (ℕ × ℕ) → IdGenerator → List ℕ
  unfolding new_id
  new_ids [] g = []
  new_ids (ts ∷ tss) g = let (i, g') = new_id ts g in i ∷ new_ids tss g'
