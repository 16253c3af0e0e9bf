-- ===== src/Tests/Text.antt =====
-- A text of 1500 bytes, by a `vsnprintf` of the older kind.
use libserverkit.Base.{
  ℕ, ◌≡◌, inl, refl, none, some, List, [], ◌∷◌, replicate, length, ltb, if◌then◌else◌, lt→ltb,
  arith, ltb-eq-false,
}
use libserverkit.Text.{Print, string_append_v, returned}
use libserverkit.Text.Append.{Prints, outcome, string_append_v_lem}

abbrev older : List ℕ → Print
older text size = if ltb (length text) size then (some (length text), text) else (none, [])

older-Prints : (text : List ℕ) → Prints (older text) text
older-Prints text = (
  λ size h. rw (lt→ltb (length text) size h) refl,
  λ size h. inl (rw (ltb-eq-false (length text) size h) refl),
)

abbrev long_text : List ℕ
long_text = replicate 1500 120

string_append_v_lem_example :
    string_append_v (older long_text) 16 (48 ∷ []) ≡ some (returned (outcome (48 ∷ []) long_text))
string_append_v_lem_example =
    string_append_v_lem (older long_text) long_text (48 ∷ []) (older-Prints long_text) (omega arith)
