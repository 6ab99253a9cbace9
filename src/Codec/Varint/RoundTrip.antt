-- ===== src/Codec/Varint/RoundTrip.antt =====
-- Decoding, by src/varint.cpp, what it has encoded.
use native.Mathlib.Nat.{pow-suc, one-le-pow, mul-le-mul_right}
use randioum.Base.{
  ℕ, zero, suc, ◌+◌, ◌-◌, ◌*◌, ◌/◌, ◌%◌, ◌^◌, ◌≤◌, ◌<◌, ◌≡◌, ◌⊎◌, inl, inr, refl, ap, ap₂, ◌∙◌,
  Bool, true, false, not, ◌&&◌, ltb, leb, ◌==◌, if-elim, if_true, if_false, Bool-cases, le-or-lt,
  List, ◌∷◌, ◌++◌, length, bit_or, arith,
}
use randioum.Base.Bits.{bit_or-shift}
use randioum.Result.{Result, ok}
use randioum.Codec.Varint.{
  DecodeStatus, DecodeOptions, encode_loop, encode_u64, finish_u64, decode_loop, decode_u64,
}

seven_more : (s : ℕ) → 2 ^ (s + 7) ≡ 2 ^ s * 128
seven_more s = omega (
  arith,
  ap (λ (k : ℕ). 2 ^ k) {x = s + 7} {y = suc (suc (suc (suc (suc (suc (suc s))))))} (omega arith),
  pow-suc 2 s,
  pow-suc 2 (suc s),
  pow-suc 2 (suc (suc s)),
  pow-suc 2 (suc (suc (suc s))),
  pow-suc 2 (suc (suc (suc (suc s)))),
  pow-suc 2 (suc (suc (suc (suc (suc s))))),
  pow-suc 2 (suc (suc (suc (suc (suc (suc s)))))),
)

split : (x p : ℕ) → x * p ≡ x / 128 * (p * 128) + x % 128 * p
split x p =
    let parts : x ≡ 128 * (x / 128) + x % 128 = omega arith in omega (arith, ap (λ t. t * p) parts)

-- A byte that is added at its place.
added :
    (v chunk s : ℕ)
    → v < 2 ^ s
    → v + chunk * 2 ^ s < 2 ^ 64
    → bit_or v (chunk * 2 ^ s % 2 ^ 64) ≡ v + chunk * 2 ^ s
added v chunk s low fits =
    let whole : chunk * 2 ^ s % 2 ^ 64 ≡ chunk * 2 ^ s = omega (arith, fits) in
    ap (bit_or v) whole ∙ bit_or-shift s v chunk low

-- What is known where byte i begins, at the place s, with v read and x to be read.
record At (i s v x : ℕ) : Type 0 where
  place : s ≡ 7 * i
  early : i ≤ 9
  low : v < 2 ^ s
  whole : v + x * 2 ^ s < 2 ^ 64
  more : (1 ≤ x) ⊎ (i ≡ 0)

-- The last place leaves room for one bit.
last_place : (i s v x : ℕ) → At i s v x → i ≡ 9 → x ≤ 1
last_place i s v x at nine =
    let top = ap (λ (k : ℕ). 2 ^ k) {x = s} {y = 63} (omega (arith, at.place, nine)) in
    last x (2 ^ s) top (omega (arith, at.whole))
  where
    last : (x p : ℕ) → p ≡ 2 ^ 63 → x * p < 2 ^ 64 → x ≤ 1
    last x p e h = omega (arith, h, ap (λ t. x * t) e)

-- The last byte is the last one that a canonical encoding has.
finish_u64-ok :
    (opt : DecodeOptions) (i s v x : ℕ)
    → At i s v x
    → finish_u64 opt (v + x * 2 ^ s) (i + 1) ≡ ok (v + x * 2 ^ s, i + 1)
unfolding finish_u64
finish_u64-ok opt i s v x at =
    let t = v + x * 2 ^ s in
    if-elim Ends (not opt.require_canonical) (λ _. refl)
      (λ _.
        if-elim Ends (t == 0)
          (λ z. if-elim Ends (not (i + 1 == 1)) (λ n. absurd (late n (first z))) (λ _. refl))
          (λ z.
            if-elim Ends (leb 64 ((i + 1 - 1) * 7)) (λ n. absurd (within i at.early n))
              (λ _.
                if-elim Ends (ltb t (2 ^ ((i + 1 - 1) * 7))) (λ n. absurd (enough z n))
                  (λ _. refl))))
  where
    Ends : Result DecodeStatus (ℕ × ℕ) → Type 0
    Ends r = r ≡ ok (v + x * 2 ^ s, i + 1)

    reaches : 1 ≤ x → 2 ^ s ≤ x * 2 ^ s
    reaches h = omega (arith, mul-le-mul_right {m = 1} {n = x} (2 ^ s) h)

    first : (v + x * 2 ^ s == 0) ≡ true → i ≡ 0
    first z = elim at.more [
      | inl h ↦
          absurd
            (zero_not (v + x * 2 ^ s) z (omega (arith, reaches h, one-le-pow s 2 (omega arith))))
      | inr e ↦ e
    ]
      where
        zero_not : (n : ℕ) → (n == 0) ≡ true → 1 ≤ n → ⊥
        zero_not n z h = ground arith

    late : not (i + 1 == 1) ≡ true → i ≡ 0 → ⊥
    late n e = ground arith

    within : (j : ℕ) → j ≤ 9 → leb 64 ((j + 1 - 1) * 7) ≡ true → ⊥
    within j h n = ground arith

    enough : (v + x * 2 ^ s == 0) ≡ false → ltb (v + x * 2 ^ s) (2 ^ ((i + 1 - 1) * 7)) ≡ true → ⊥
    enough z n =
        let at_place =
          ap (λ (k : ℕ). 2 ^ k) {x = (i + 1 - 1) * 7} {y = s} (omega (arith, at.place)) in
        below (v + x * 2 ^ s) _ (omega (arith, at_place, least at.more)) n
      where
        below : (n m : ℕ) → m ≤ n → ltb n m ≡ true → ⊥
        below n m h t = ground arith

        some_value : (n : ℕ) → (n == 0) ≡ false → 1 ≤ n
        some_value n z = ground arith

        least : (1 ≤ x) ⊎ (i ≡ 0) → 2 ^ s ≤ v + x * 2 ^ s
        least (inl h) = omega (arith, reaches h)
        least (inr e) = omega (
          arith,
          some_value _ z,
          ap (λ (k : ℕ). 2 ^ k) {x = s} {y = 0} (omega (arith, at.place, e)),
        )

-- The low bits of a byte that is followed by others.
continued : (x : ℕ) → bit_or (x % 128) 128 ≡ x % 128 + 128
continued x = bit_or-shift 7 (x % 128) 1 (omega arith)

-- The tests that a byte passes.
place_inside : (i s v x : ℕ) → At i s v x → leb 64 s ≡ false
place_inside i s v x at = within i s at.place at.early
  where
    within : (i s : ℕ) → s ≡ 7 * i → i ≤ 9 → leb 64 s ≡ false
    within i s e h = ground arith

chunk_inside : (i s v x chunk : ℕ) → At i s v x → chunk ≤ x → ((s == 63) && ltb 1 chunk) ≡ false
chunk_inside i s v x chunk at le =
    both (s == 63) (ltb 1 chunk)
      (λ t. small chunk (omega (arith, le, last_place i s v x at (nine i s at.place t))))
  where
    both : (b c : Bool) → (b ≡ true → c ≡ false) → (b && c) ≡ false
    both true c h = h refl
    both false c h = refl

    nine : (i s : ℕ) → s ≡ 7 * i → (s == 63) ≡ true → i ≡ 9
    nine i s e t = ground arith

    small : (n : ℕ) → n ≤ 1 → ltb 1 n ≡ false
    small n h = ground arith

decode_last :
    (opt : DecodeOptions) (i s v x : ℕ) (rest : List ℕ)
    → At i s v x
    → x / 128 ≡ 0
    → decode_loop opt (x % 128 ∷ rest) i v s ≡ ok (v + x * 2 ^ s, i + 1)
unfolding decode_loop
decode_last opt i s v x rest at ends =
    let chunk : x % 128 % 128 ≡ x = omega (arith, ends) in
    if_false _ _ (place_inside i s v x at)
    ∙ if_false _ _ (chunk_inside i s v x _ at (omega (arith, chunk)))
    ∙ if_true _ _ (low_byte (x % 128) (omega arith))
    ∙ ap (λ c. finish_u64 opt (bit_or v (c * 2 ^ s % 2 ^ 64)) (i + 1)) chunk
    ∙ ap (λ n. finish_u64 opt n (i + 1)) (added v x s at.low at.whole)
    ∙ finish_u64-ok opt i s v x at
  where
    low_byte : (b : ℕ) → b < 128 → ltb b 128 ≡ true
    low_byte b h = ground arith

decode_next :
    (opt : DecodeOptions) (i s v x : ℕ) (rest : List ℕ)
    → At i s v x
    → 1 ≤ x / 128
    → decode_loop opt (bit_or (x % 128) 128 ∷ rest) i v s
      ≡ decode_loop opt rest (i + 1) (v + x % 128 * 2 ^ s) (s + 7)
unfolding decode_loop
decode_next opt i s v x rest at more =
    let high = continued x in
    let chunk : bit_or (x % 128) 128 % 128 ≡ x % 128 = omega (arith, high) in
    let part : v + x % 128 * 2 ^ s < 2 ^ 64 =
      omega (arith, at.whole, mul-le-mul_right {m = x % 128} {n = x} (2 ^ s) (omega arith)) in
    if_false _ _ (place_inside i s v x at)
    ∙ if_false _ _ (chunk_inside i s v x _ at (omega (arith, chunk)))
    ∙ if_false _ _ (high_byte (bit_or (x % 128) 128) (omega (arith, high)))
    ∙ if_false _ _ (not_ninth i (λ nine. omega (arith, last_place i s v x at nine, more)))
    ∙ ap (λ c. decode_loop opt rest (i + 1) (bit_or v (c * 2 ^ s % 2 ^ 64)) (s + 7)) chunk
    ∙ ap (λ n. decode_loop opt rest (i + 1) n (s + 7)) (added v (x % 128) s at.low part)
  where
    high_byte : (b : ℕ) → 128 ≤ b → ltb b 128 ≡ false
    high_byte b h = ground arith

    not_ninth : (i : ℕ) → (i ≡ 9 → ⊥) → (i == 9) ≡ false
    not_ninth i never = elim (Bool-cases (i == 9)) [
      | inl t ↦ absurd (never (ground arith))
      | inr f ↦ f
    ]

At-next :
    (i s v x : ℕ) → At i s v x → 1 ≤ x / 128 → At (i + 1) (s + 7) (v + x % 128 * 2 ^ s) (x / 128)
At-next i s v x at more = record {
  place = omega (arith, at.place);
  early = omega (arith, at.early, not_last);
  low =
      omega (
        arith,
        seven_more s,
        at.low,
        mul-le-mul_right {m = x % 128} {n = 127} (2 ^ s) (omega arith),
      );
  whole = omega (arith, at.whole, split x (2 ^ s), ap (λ p. x / 128 * p) (seven_more s));
  more = inl more;
}
  where
    not_last : i < 9
    not_last = elim (le-or-lt 9 i) [
      | inl le ↦ absurd (omega (arith, last_place i s v x at (omega (arith, le, at.early)), more))
      | inr lt ↦ lt
    ]

decode_loop-encode_loop :
    (opt : DecodeOptions) (fuel i s v x : ℕ) (rest : List ℕ)
    → fuel + i ≡ 10
    → At i s v x
    → decode_loop opt (encode_loop fuel x ++ rest) i v s
      ≡ ok (v + x * 2 ^ s, i + length (encode_loop fuel x))
unfolding encode_loop
decode_loop-encode_loop opt zero i s v x rest rounds at = absurd (omega (arith, rounds, at.early))
decode_loop-encode_loop opt (suc fuel) i s v x rest rounds at =
    if-elim (λ e. decode_loop opt (e ++ rest) i v s ≡ ok (v + x * 2 ^ s, i + length e))
      (x / 128 == 0) (λ t. decode_last opt i s v x rest at (none_left (x / 128) t))
      (λ f.
        let more = some_left (x / 128) f in
        decode_next opt i s v x (encode_loop fuel (x / 128) ++ rest) at more
        ∙ decode_loop-encode_loop opt fuel (i + 1) (s + 7) (v + x % 128 * 2 ^ s) (x / 128) rest
            (omega (arith, rounds)) (At-next i s v x at more)
        ∙ ap₂ (λ a b. ok (a, b))
            (omega (arith, split x (2 ^ s), ap (λ p. x / 128 * p) (seven_more s))) (omega arith))
  where
    none_left : (n : ℕ) → (n == 0) ≡ true → n ≡ 0
    none_left n t = ground arith

    some_left : (n : ℕ) → (n == 0) ≡ false → 1 ≤ n
    some_left n f = ground arith

-- A 64-bit number is decoded from its encoding, whatever follows it, with the number of bytes that
-- the encoding has, also where the canonical encoding is required.
pub decode_u64-encode_u64 :
    (opt : DecodeOptions) (v : ℕ) (rest : List ℕ)
    → v < 2 ^ 64
    → decode_u64 opt (encode_u64 v ++ rest) ≡ ok (v, length (encode_u64 v))
unfolding decode_u64 encode_u64 encode_loop
decode_u64-encode_u64 opt v rest fits =
    if-elim (λ e. decode_u64 opt (e ++ rest) ≡ decode_loop opt (e ++ rest) 0 0 0) (v / 128 == 0)
      (λ t. refl) (λ f. refl)
    ∙ decode_loop-encode_loop opt 10 0 0 0 v rest refl (record {
      place = refl;
      early = omega arith;
      low = omega arith;
      whole = omega (arith, fits);
      more = inr refl;
    })
    ∙ ap₂ (λ a b. ok (a, b)) (omega arith) (from_zero (length (encode_loop 10 v)))
  where
    from_zero : (n : ℕ) → 0 + n ≡ n
    from_zero n = omega arith
