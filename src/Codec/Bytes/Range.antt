-- ===== src/Codec/Bytes/Range.antt =====
-- What `read_u64_le` reads fits 64 bits.
use randioum.Base.{
  ℕ, zero, suc, ◌^◌, ◌≤◌, ◌<◌, ◌≡◌, sym, subst, List, [], ◌∷◌, All, length, length-take, take,
  arith,
}
use randioum.Codec.Bytes.{IsByte, IsU64, read_u64_le}
use randioum.Codec.Bytes.Laws.{le_value, or_eight}
use randioum.Codec.Bytes.Inverse.{le_value-lt}

pub All-take : (n : ℕ) (xs : List ℕ) → All IsByte xs → All IsByte (take n xs)
All-take zero xs h = tt
All-take (suc n) [] h = tt
All-take (suc n) (x ∷ xs) (p, h) = (p, All-take n xs h)

read_u64_le-le_value :
    (xs : List ℕ) → 8 ≤ length xs → All IsByte xs → read_u64_le xs 0 ≡ le_value (take 8 xs)
read_u64_le-le_value [] m all = absurd (omega arith)
read_u64_le-le_value (a ∷ []) m all = absurd (omega arith)
read_u64_le-le_value (a ∷ b ∷ []) m all = absurd (omega arith)
read_u64_le-le_value (a ∷ b ∷ c ∷ []) m all = absurd (omega arith)
read_u64_le-le_value (a ∷ b ∷ c ∷ d ∷ []) m all = absurd (omega arith)
read_u64_le-le_value (a ∷ b ∷ c ∷ d ∷ e ∷ []) m all = absurd (omega arith)
read_u64_le-le_value (a ∷ b ∷ c ∷ d ∷ e ∷ f ∷ []) m all = absurd (omega arith)
read_u64_le-le_value (a ∷ b ∷ c ∷ d ∷ e ∷ f ∷ g ∷ []) m all = absurd (omega arith)
read_u64_le-le_value (a ∷ b ∷ c ∷ d ∷ e ∷ f ∷ g ∷ h ∷ rest) m
      (ha, (hb, (hc, (hd, (he, (hf, (hg, (hh, _)))))))) =
    or_eight a b c d e f g h (ha, (hb, (hc, (hd, (he, (hf, (hg, (hh, tt)))))))) rest

pub read_u64_le-IsU64 : (xs : List ℕ) → 8 ≤ length xs → All IsByte xs → IsU64 (read_u64_le xs 0)
read_u64_le-IsU64 xs m all = subst IsU64 (sym (read_u64_le-le_value xs m all)) (
    subst (λ n. le_value (take 8 xs) < 256 ^ n) {y = 8} (omega (arith, length-take 8 xs))
      (le_value-lt (take 8 xs) (All-take 8 xs all)))
