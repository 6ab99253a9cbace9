-- ===== src/Base/Text.antt =====
-- Text as bytes.
use Prim.Native.Char.{code}
use Prim.Native.String.{String}
use mathlib.Core.Bool.{false≢true}
use randioum.Base.{
  ◌≡◌, ◌≢◌, ◌⊎◌, inl, inr, refl, sym, ap, ap₂, ◌∙◌, Bool-cases, arith, Bool, true, false, ◌==◌,
  ◌&&◌, ℕ, zero, suc, ◌+◌, ◌/◌, ◌%◌, List, [], ◌∷◌, ltb, if◌then◌else◌,
}

-- The bytes of an ASCII text.
abbrev pub codes : String → List ℕ
codes String.[] = []
codes (String.◌∷◌ c s) = code c ∷ codes s

unfoldable pub decimal_digits : ℕ → ℕ → List ℕ → List ℕ
decimal_digits zero v out = out
decimal_digits (suc fuel) v out =
    let rest = decimal_digits fuel (v / 10) ((48 + v % 10) ∷ out) in
    if ltb v 10 then (48 + v) ∷ out else rest

-- `std::to_string` on a 64-bit integer, which has at most 20 digits.
unfoldable pub to_string : ℕ → List ℕ
unfolding decimal_digits
to_string v = decimal_digits 20 v []

unfoldable pub hex_digit : ℕ → ℕ
hex_digit n = if ltb n 10 then 48 + n else 87 + n

-- `crypto::to_hex` of src/sha256.cpp, on the bytes of a hash.
unfoldable pub to_hex : List ℕ → List ℕ
unfolding hex_digit
to_hex [] = []
to_hex (b ∷ bytes) = hex_digit (b / 16 % 16) ∷ hex_digit (b % 16) ∷ to_hex bytes

-- Whether two texts, or two hashes, are the same.
unfoldable pub same_bytes : List ℕ → List ℕ → Bool
same_bytes [] [] = true
same_bytes (x ∷ xs) (y ∷ ys) = (x == y) && same_bytes xs ys
same_bytes _ _ = false

pub same_bytes_refl : (xs : List ℕ) → same_bytes xs xs ≡ true
unfolding same_bytes
same_bytes_refl [] = refl
same_bytes_refl (x ∷ xs) = ground (arith, same_bytes_refl xs)

pub same_bytes_eq : (xs ys : List ℕ) → same_bytes xs ys ≡ true → xs ≡ ys
unfolding same_bytes
same_bytes_eq [] [] h = refl
same_bytes_eq [] (y ∷ ys) h = absurd (false≢true h)
same_bytes_eq (x ∷ xs) [] h = absurd (false≢true h)
same_bytes_eq (x ∷ xs) (y ∷ ys) h =
    ap₂ (λ a b. a ∷ b) (ground arith) (same_bytes_eq xs ys (ground arith))

pub same_bytes_or_ne : (xs ys : List ℕ) → (xs ≡ ys) ⊎ (xs ≢ ys)
same_bytes_or_ne xs ys = elim (Bool-cases (same_bytes xs ys)) [
  | inl t ↦ inl (same_bytes_eq xs ys t)
  | inr f ↦ inr (λ e. false≢true (sym f ∙ ap (same_bytes xs) (sym e) ∙ same_bytes_refl xs))
]
