-- ===== src/Log/Level.antt =====
-- The level below which messages are dropped, as the environment sets it.
use libserverkit.Base.{
  ℕ, ◌≤◌, true, some, List, [], ◌∷◌, ◌≡◌, ◌↔◌, ◌⊎◌, inl, inr, refl, sym, ap, ap₂, ◌∙◌, eq_of_==,
  Bool-cases, arith,
}
use libserverkit.Log.{
  LogLevel, debug, info, warn, error, fatal, level_number, all_levels, log_level_name, is_same,
  find_level, init_log_level,
}

eq_of_is_same : (xs ys : List ℕ) → is_same xs ys ≡ true → xs ≡ ys
eq_of_is_same [] [] h = refl
eq_of_is_same [] (y ∷ ys) h = cc
eq_of_is_same (x ∷ xs) [] h = cc
eq_of_is_same (x ∷ xs) (y ∷ ys) h =
    ap₂ ◌∷◌ (eq_of_== x y (ground arith)) (eq_of_is_same xs ys (ground arith))

find_level-name :
    (ls : List LogLevel) (val : List ℕ)
    → (find_level ls val ≡ debug) ⊎ (log_level_name (find_level ls val) ≡ val)
find_level-name [] val = inl refl
find_level-name (l ∷ ls) val = elim (Bool-cases (is_same (log_level_name l) val)) [
  | inl e ↦ rw e (inr (eq_of_is_same (log_level_name l) val e))
  | inr e ↦ rw e (find_level-name ls val)
]

init_log_level-name : (l : LogLevel) → init_log_level (some (log_level_name l)) ≡ l
unfolding init_log_level
init_log_level-name debug = refl
init_log_level-name info = refl
init_log_level-name warn = refl
init_log_level-name error = refl
init_log_level-name fatal = refl

-- A level other than `DEBUG` is taken from the environment just when the variable's value is the text
-- that begins such a message, "[I " or the like, with the bracket and the space.
pub init_log_level_lem :
    (val : List ℕ) (l : LogLevel)
    → 1 ≤ level_number l
    → (init_log_level (some val) ≡ l) ↔ (val ≡ log_level_name l)
unfolding init_log_level
init_log_level_lem val l h = (
  λ e. elim (find_level-name all_levels val) [
    | inl d ↦ absurd (omega (arith, h, ap level_number (sym e ∙ d)))
    | inr n ↦ sym n ∙ ap log_level_name e
  ],
  λ e. ap (λ v. init_log_level (some v)) e ∙ init_log_level-name l,
)
