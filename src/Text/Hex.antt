-- ===== src/Text/Hex.antt =====
-- Which strings `StringToHex` tells apart.
use libserverkit.Base.{
  ℕ, ◌/◌, ◌%◌, ◌≤◌, ◌<◌, ◌≡◌, refl, sym, length, ap, ap₂, ◌∙◌, List, [], ◌∷◌, ◌++◌, All, arith,
  ltb-eq-false,
}
use libserverkit.Text.{hex_digit, print_hex, hex_bytes, string_to_hex}

-- A byte that is printed with two digits.
abbrev pub IsWide : ℕ → Type 0
IsWide b = (16 ≤ b) × (b < 256)

abbrev head_of : List ℕ → ℕ
head_of [] = 0
head_of (x ∷ xs) = x

abbrev tail_of : List ℕ → List ℕ
tail_of [] = []
tail_of (x ∷ xs) = xs

hex_digit_inj : (m n : ℕ) → m < 16 → n < 16 → hex_digit m ≡ hex_digit n → m ≡ n
hex_digit_inj m n h k e = ground arith

wide_digits : (b : ℕ) → IsWide b → print_hex b ≡ hex_digit (b / 16) ∷ hex_digit (b % 16) ∷ []
unfolding print_hex
wide_digits b w = rw (ltb-eq-false b 16 w.0) refl

hex_bytes-cons :
    (b : ℕ) (str : List ℕ)
    → IsWide b
    → hex_bytes (b ∷ str) ≡ hex_digit (b / 16) ∷ hex_digit (b % 16) ∷ hex_bytes str
unfolding hex_bytes
hex_bytes-cons b str w = ap (λ d. d ++ hex_bytes str) (wide_digits b w)

hex_bytes_inj :
    (xs ys : List ℕ) → All IsWide xs → All IsWide ys → hex_bytes xs ≡ hex_bytes ys → xs ≡ ys
unfolding hex_bytes
hex_bytes_inj [] [] v w e = refl
hex_bytes_inj [] (y ∷ ys) v w e = absurd (omega (arith, ap length (e ∙ hex_bytes-cons y ys w.0)))
hex_bytes_inj (x ∷ xs) [] v w e =
    absurd (omega (arith, ap length (sym (hex_bytes-cons x xs v.0) ∙ e)))
hex_bytes_inj (x ∷ xs) (y ∷ ys) v w e =
    let same = sym (hex_bytes-cons x xs v.0) ∙ (e ∙ hex_bytes-cons y ys w.0) in
    let high =
      hex_digit_inj (x / 16) (y / 16) (omega (arith, v.0.1)) (omega (arith, w.0.1))
        (ap head_of same) in
    let low =
      hex_digit_inj (x % 16) (y % 16) (omega arith) (omega arith)
        (ap (λ l. head_of (tail_of l)) same) in
    ap₂ ◌∷◌ (omega (arith, high, low))
      (hex_bytes_inj xs ys v.1 w.1 (ap (λ l. tail_of (tail_of l)) same))

-- `StringToHex` tells strings apart that have no byte below 16; it does not in general.
pub string_to_hex_inj :
    (xs ys : List ℕ) → All IsWide xs → All IsWide ys → string_to_hex xs ≡ string_to_hex ys → xs ≡ ys
unfolding string_to_hex
string_to_hex_inj xs ys v w e = hex_bytes_inj xs ys v w (ap (λ l. tail_of (tail_of l)) e)

same_text : string_to_hex (1 ∷ 17 ∷ []) ≡ string_to_hex (17 ∷ 1 ∷ [])
unfolding string_to_hex hex_bytes print_hex
same_text = refl
