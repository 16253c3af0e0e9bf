-- ===== src/Text.antt =====
-- util/string.cc: `StringToHex`, and `stringAppendV`, by which `StringPrintf` prints. A string is its
-- bytes. `vsnprintf`, with its format and its arguments, is a parameter: a function from the size of
-- the buffer to its result and to what it leaves in the buffer, without the zero byte. Its result is an
-- `int`, and so are the sizes.
pub mod Append
pub mod Hex
use libserverkit.Base.{
  ℕ, zero, suc, ◌*◌, Bool, false, Option, none, some, List, [], ◌∷◌, ◌++◌, ◌+◌, ◌/◌, ◌%◌, take, ltb,
  leb, ◌^◌, if◌then◌else◌,
}

abbrev pub small_fixed_size : ℕ
small_fixed_size = 1024

abbrev pub max_append_size : ℕ
max_append_size = 32 * 1024 * 1024

-- The result is `none` where it is negative.
abbrev pub Print : Type 0
Print = ℕ → Option ℕ × List ℕ

-- `result >= 0 && result < length`
abbrev pub did_fit : Option ℕ → ℕ → Bool
did_fit none length = false
did_fit (some n) length = ltb n length

abbrev pub appended : List ℕ → Option ℕ × List ℕ → List ℕ
appended dst (none, buffer) = dst
appended dst (some n, buffer) = dst ++ take n buffer

-- The size of the next buffer, as the 32 bits of an `int`.
abbrev pub next_length : Option ℕ → ℕ → ℕ
next_length none length = length * 2 % 2 ^ 32
next_length (some n) length = (n + 1) % 2 ^ 32

abbrev pub int_limit : ℕ
int_limit = 2 ^ 31

-- How `stringAppendV` ends: it returns, with what is in `dst` then, or the vector of a negative size
-- throws.
pub data Ended : Type 0 where
  returned : List ℕ → Ended
  thrown : Ended

module _ (print : Print) where
  -- The loop. `none` is a loop that does not end within the fuel.
  unfoldable pub append_loop : ℕ → ℕ → Option ℕ → List ℕ → Option Ended
  append_loop zero length result dst = none
  append_loop (suc fuel) length result dst =
      let longer = next_length result length in
      let again = print longer in
      let more = append_loop fuel longer again.0 dst in
      if leb int_limit longer
      then some thrown
      else if ltb max_append_size longer
      then some (returned dst)
      else if did_fit again.0 longer
      then some (returned (appended dst again))
      else more

  -- `stringAppendV`, with so many rounds
  unfoldable pub string_append_v : ℕ → List ℕ → Option Ended
  unfolding append_loop
  string_append_v fuel dst =
      let first = print small_fixed_size in
      if did_fit first.0 small_fixed_size
      then some (returned (appended dst first))
      else append_loop fuel small_fixed_size first.0 dst

  -- `StringPrintf`
  unfoldable pub string_printf : ℕ → Option Ended
  unfolding string_append_v
  string_printf fuel = string_append_v fuel []

-- `%x` of one byte, and `StringToHex`
abbrev pub hex_digit : ℕ → ℕ
hex_digit n = if ltb n 10 then 48 + n else 87 + n

unfoldable pub print_hex : ℕ → List ℕ
print_hex b = if ltb b 16 then hex_digit b ∷ [] else hex_digit (b / 16) ∷ hex_digit (b % 16) ∷ []

unfoldable pub hex_bytes : List ℕ → List ℕ
unfolding print_hex
hex_bytes [] = []
hex_bytes (b ∷ str) = print_hex b ++ hex_bytes str

unfoldable pub string_to_hex : List ℕ → List ℕ
unfolding hex_bytes
string_to_hex str = 48 ∷ 120 ∷ hex_bytes str
