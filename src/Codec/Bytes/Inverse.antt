-- ===== src/Codec/Bytes/Inverse.antt =====
-- Bytes that were read are written back, and what is read fits its type.
use randioum.Base.{
  ℕ, zero, suc, ◌+◌, ◌^◌, ◌≤◌, ◌<◌, ◌≡◌, refl, ap, ap₂, sym, ◌∙◌, List, [], ◌∷◌, ◌++◌, All, length,
  length-drop, drop, arith,
}
use randioum.Codec.Bytes.{IsByte, read_u32_le, read_u64_le}
use randioum.Codec.Bytes.Laws.{
  le_bytes, le_value, or_four, or_eight, read_u32_le-drop, read_u64_le-drop,
}
use native.Mathlib.Nat.{pow-suc}
use Prim.Native.Nat.add

pub All-drop : (n : ℕ) (xs : List ℕ) → All IsByte xs → All IsByte (drop n xs)
All-drop zero xs h = h
All-drop (suc n) [] h = h
All-drop (suc n) (x ∷ xs) (p, h) = All-drop n xs h

pub le_value-lt : (xs : List ℕ) → All IsByte xs → le_value xs < 256 ^ length xs
le_value-lt [] h = omega arith
le_value-lt (x ∷ xs) (p, h) = omega (arith, le_value-lt xs h, pow-suc 256 (length xs))

pub le_bytes-le_value : (xs : List ℕ) → All IsByte xs → le_bytes (length xs) (le_value xs) ≡ xs
le_bytes-le_value [] h = refl
le_bytes-le_value (x ∷ xs) (p, h) =
    ap₂ (λ a b. a ∷ b) (omega arith)
      (ap (le_bytes (length xs)) (omega arith) ∙ le_bytes-le_value xs h)

read_u32_le-four :
    (a b c d : ℕ) (rest : List ℕ)
    → All IsByte (a ∷ b ∷ c ∷ d ∷ [])
    → read_u32_le (a ∷ b ∷ c ∷ d ∷ rest) 0 ≡ le_value (a ∷ b ∷ c ∷ d ∷ [])
unfolding read_u32_le
read_u32_le-four a b c d rest (ha, (hb, (hc, _))) = or_four a b c d ha hb hc ∙ omega arith

le_bytes-read_u32_head :
    (xs : List ℕ) → 4 ≤ length xs → All IsByte xs → le_bytes 4 (read_u32_le xs 0) ++ drop 4 xs ≡ xs
le_bytes-read_u32_head [] h all = absurd (omega arith)
le_bytes-read_u32_head (a ∷ []) h all = absurd (omega arith)
le_bytes-read_u32_head (a ∷ b ∷ []) h all = absurd (omega arith)
le_bytes-read_u32_head (a ∷ b ∷ c ∷ []) h all = absurd (omega arith)
le_bytes-read_u32_head (a ∷ b ∷ c ∷ d ∷ rest) h (ha, (hb, (hc, (hd, _)))) =
    ap (λ t. t ++ rest)
      (ap (le_bytes 4) (read_u32_le-four a b c d rest (ha, (hb, (hc, (hd, tt)))))
        ∙ le_bytes-le_value (a ∷ b ∷ c ∷ d ∷ []) (ha, (hb, (hc, (hd, tt)))))

le_bytes-read_u64_head :
    (xs : List ℕ) → 8 ≤ length xs → All IsByte xs → le_bytes 8 (read_u64_le xs 0) ++ drop 8 xs ≡ xs
le_bytes-read_u64_head [] m all = absurd (omega arith)
le_bytes-read_u64_head (a ∷ []) m all = absurd (omega arith)
le_bytes-read_u64_head (a ∷ b ∷ []) m all = absurd (omega arith)
le_bytes-read_u64_head (a ∷ b ∷ c ∷ []) m all = absurd (omega arith)
le_bytes-read_u64_head (a ∷ b ∷ c ∷ d ∷ []) m all = absurd (omega arith)
le_bytes-read_u64_head (a ∷ b ∷ c ∷ d ∷ e ∷ []) m all = absurd (omega arith)
le_bytes-read_u64_head (a ∷ b ∷ c ∷ d ∷ e ∷ f ∷ []) m all = absurd (omega arith)
le_bytes-read_u64_head (a ∷ b ∷ c ∷ d ∷ e ∷ f ∷ g ∷ []) m all = absurd (omega arith)
le_bytes-read_u64_head (a ∷ b ∷ c ∷ d ∷ e ∷ f ∷ g ∷ h ∷ rest) m
      (ha, (hb, (hc, (hd, (he, (hf, (hg, (hh, _)))))))) =
    let front : All IsByte (a ∷ b ∷ c ∷ d ∷ e ∷ f ∷ g ∷ h ∷ []) =
      (ha, (hb, (hc, (hd, (he, (hf, (hg, (hh, tt)))))))) in
    ap (λ t. t ++ rest)
      (ap (le_bytes 8) (or_eight a b c d e f g h front rest)
        ∙ le_bytes-le_value (a ∷ b ∷ c ∷ d ∷ e ∷ f ∷ g ∷ h ∷ []) front)

drop-nil : (n : ℕ) → drop n (let e : List ℕ = [] in e) ≡ []
drop-nil zero = refl
drop-nil (suc n) = refl

pub drop-drop : (n m : ℕ) (xs : List ℕ) → drop n (drop m xs) ≡ drop (m + n) xs
drop-drop n zero xs = rw (add.zero n)
drop-drop n (suc m) [] = drop-nil n ∙ sym (drop-nil (suc m + n))
drop-drop n (suc m) (x ∷ xs) = rw (add.suc m n) (drop-drop n m xs)

-- Reading an integer at an offset and writing it back gives the bytes that stood there.
pub le_bytes-read_u32_le :
    (bytes : List ℕ) (off : ℕ)
    → off + 4 ≤ length bytes
    → All IsByte bytes
    → le_bytes 4 (read_u32_le bytes off) ++ drop (off + 4) bytes ≡ drop off bytes
le_bytes-read_u32_le bytes off room all =
    ap₂ (λ r t. le_bytes 4 r ++ t) (read_u32_le-drop bytes off) (sym (drop-drop 4 off bytes))
    ∙ le_bytes-read_u32_head (drop off bytes) (omega (arith, length-drop off bytes))
        (All-drop off bytes all)

pub le_bytes-read_u64_le :
    (bytes : List ℕ) (off : ℕ)
    → off + 8 ≤ length bytes
    → All IsByte bytes
    → le_bytes 8 (read_u64_le bytes off) ++ drop (off + 8) bytes ≡ drop off bytes
le_bytes-read_u64_le bytes off room all =
    ap₂ (λ r t. le_bytes 8 r ++ t) (read_u64_le-drop bytes off) (sym (drop-drop 8 off bytes))
    ∙ le_bytes-read_u64_head (drop off bytes) (omega (arith, length-drop off bytes))
        (All-drop off bytes all)
