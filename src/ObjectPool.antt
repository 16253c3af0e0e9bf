-- ===== src/ObjectPool.antt =====
-- base/object_pool.h: the free list of recycled objects. A `T*` is an address, `NULL` is 0, and
-- `new` gives the next address that was never used. A pool belongs to one thread.
pub mod Laws
use libserverkit.Base.{ℕ, zero, suc, ◌+◌, List, [], ◌∷◌, ◌++◌, update}

abbrev pub null : ℕ
null = 0

-- The objects by address, the first address not handed out by `new`, and `free_list_`.
pub record ObjectPool {ℓ} (T : Type ℓ) : Type ℓ where
  pub cell : ℕ → T
  pub brk : ℕ
  pub free_list : List ℕ

abbrev pub alloc_object_number : ℕ
alloc_object_number = 100

module _ {ℓ} {T : Type ℓ} where
  -- `new T()`, and `push_back` of the result.
  abbrev pub push_new : T → ObjectPool T → ObjectPool T
  push_new fresh s = record s {
    cell = update s.cell s.brk fresh;
    brk = suc s.brk;
    free_list = s.free_list ++ s.brk ∷ [];
  }

  unfoldable pub allocate_loop : ℕ → T → ObjectPool T → ObjectPool T
  allocate_loop zero fresh s = s
  allocate_loop (suc n) fresh s = allocate_loop n fresh (push_new fresh s)

  unfoldable pub allocate : T → ObjectPool T → ObjectPool T
  unfolding allocate_loop
  allocate fresh s = allocate_loop alloc_object_number fresh s

  -- `front` and `pop_front`; the assertion behind them says that the result is not `NULL`.
  abbrev pub pop_front : List ℕ → ObjectPool T → ℕ × ObjectPool T
  pop_front [] s = (null, s)
  pop_front (p ∷ ps) s = (p, record s { free_list = ps })

  -- `if (free_list_.empty()) allocate();`
  abbrev pub refill : List ℕ → T → ObjectPool T → ObjectPool T
  refill [] fresh s = allocate fresh s
  refill (p ∷ ps) fresh s = s

  unfoldable pub get : T → ObjectPool T → ℕ × ObjectPool T
  get fresh s = let s' = refill s.free_list fresh s in pop_front s'.free_list s'

  -- `reset` is `T::Reset`.
  unfoldable pub free : (T → T) → ℕ → ObjectPool T → ObjectPool T
  free reset p s = record s {
    cell = update s.cell p (reset (s.cell p));
    free_list = s.free_list ++ p ∷ [];
  }

-- `ObjectList()` before any other object was made; address 0 is `NULL`.
module _ {ℓ} {T : Type ℓ} where
  abbrev pub no_objects : T → ObjectPool T
  no_objects fresh = record { cell = λ a. fresh; brk = 1; free_list = [] }

  unfoldable pub new_pool : T → ObjectPool T
  unfolding allocate
  new_pool fresh = allocate fresh (no_objects fresh)
