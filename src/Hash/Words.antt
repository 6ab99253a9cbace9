-- ===== src/Hash/Words.antt =====
-- The functions of src/sha256.cpp on 32-bit words, and `compress`.
use Prim.Native.Nat.{bit_and}
use randioum.Base.{
  ℕ, zero, suc, ◌+◌, ◌-◌, ◌*◌, ◌/◌, ◌%◌, ◌^◌, List, [], ◌∷◌, ◌++◌, get_or, bit_or, bit_xor,
}
use randioum.Codec.Bytes.{byte_at}

-- The constants `K`.
abbrev round_constants : List ℕ
round_constants =
    0x428a2f98 ∷ 0x71374491 ∷ 0xb5c0fbcf ∷ 0xe9b5dba5 ∷ 0x3956c25b ∷ 0x59f111f1 ∷ 0x923f82a4
    ∷ 0xab1c5ed5 ∷ 0xd807aa98 ∷ 0x12835b01 ∷ 0x243185be ∷ 0x550c7dc3 ∷ 0x72be5d74 ∷ 0x80deb1fe
    ∷ 0x9bdc06a7 ∷ 0xc19bf174 ∷ 0xe49b69c1 ∷ 0xefbe4786 ∷ 0x0fc19dc6 ∷ 0x240ca1cc ∷ 0x2de92c6f
    ∷ 0x4a7484aa ∷ 0x5cb0a9dc ∷ 0x76f988da ∷ 0x983e5152 ∷ 0xa831c66d ∷ 0xb00327c8 ∷ 0xbf597fc7
    ∷ 0xc6e00bf3 ∷ 0xd5a79147 ∷ 0x06ca6351 ∷ 0x14292967 ∷ 0x27b70a85 ∷ 0x2e1b2138 ∷ 0x4d2c6dfc
    ∷ 0x53380d13 ∷ 0x650a7354 ∷ 0x766a0abb ∷ 0x81c2c92e ∷ 0x92722c85 ∷ 0xa2bfe8a1 ∷ 0xa81a664b
    ∷ 0xc24b8b70 ∷ 0xc76c51a3 ∷ 0xd192e819 ∷ 0xd6990624 ∷ 0xf40e3585 ∷ 0x106aa070 ∷ 0x19a4c116
    ∷ 0x1e376c08 ∷ 0x2748774c ∷ 0x34b0bcb5 ∷ 0x391c0cb3 ∷ 0x4ed8aa4a ∷ 0x5b9cca4f ∷ 0x682e6ff3
    ∷ 0x748f82ee ∷ 0x78a5636f ∷ 0x84c87814 ∷ 0x8cc70208 ∷ 0x90befffa ∷ 0xa4506ceb ∷ 0xbef9a3f7
    ∷ 0xc67178f2 ∷ []

rotr : ℕ → ℕ → ℕ
rotr x n = bit_or (x / 2 ^ n) (x * 2 ^ (32 - n) % 2 ^ 32)

-- The complement of a 32-bit word x is 2 ^ 32 - 1 - x.
ch : ℕ → ℕ → ℕ → ℕ
ch x y z = bit_xor (bit_and x y) (bit_and (2 ^ 32 - 1 - x) z)

maj : ℕ → ℕ → ℕ → ℕ
maj x y z = bit_xor (bit_xor (bit_and x y) (bit_and x z)) (bit_and y z)

big_sigma0 : ℕ → ℕ
unfolding rotr
big_sigma0 x = bit_xor (bit_xor (rotr x 2) (rotr x 13)) (rotr x 22)

big_sigma1 : ℕ → ℕ
unfolding rotr
big_sigma1 x = bit_xor (bit_xor (rotr x 6) (rotr x 11)) (rotr x 25)

small_sigma0 : ℕ → ℕ
unfolding rotr
small_sigma0 x = bit_xor (bit_xor (rotr x 7) (rotr x 18)) (x / 2 ^ 3)

small_sigma1 : ℕ → ℕ
unfolding rotr
small_sigma1 x = bit_xor (bit_xor (rotr x 17) (rotr x 19)) (x / 2 ^ 10)

load_be_u32 : List ℕ → ℕ → ℕ
load_be_u32 p off =
    bit_or
      (bit_or (bit_or (byte_at p off * 2 ^ 24) (byte_at p (off + 1) * 2 ^ 16))
        (byte_at p (off + 2) * 2 ^ 8))
      (byte_at p (off + 3))

-- The eight words of a state, and of the variables `a` to `h` of the loop.
pub record Words8 : Type 0 where
  pub a : ℕ
  pub b : ℕ
  pub c : ℕ
  pub d : ℕ
  pub e : ℕ
  pub f : ℕ
  pub g : ℕ
  pub h : ℕ

-- The two loops that fill `w`, with the rounds left first.
load_words : ℕ → ℕ → List ℕ → List ℕ → List ℕ
unfolding load_be_u32
load_words zero i block w = w
load_words (suc rounds) i block w =
    load_words rounds (i + 1) block (w ++ (load_be_u32 block (i * 4) ∷ []))

extend_words : ℕ → ℕ → List ℕ → List ℕ
unfolding small_sigma0 small_sigma1
extend_words zero i w = w
extend_words (suc rounds) i w = extend_words rounds (i + 1) (
    w
    ++ ((small_sigma1 (get_or 0 w (i - 2))
            + get_or 0 w (i - 7)
            + small_sigma0 (get_or 0 w (i - 15))
            + get_or 0 w (i - 16))
          % 2 ^ 32
        ∷ []))

-- The body of the main loop.
mix : ℕ → ℕ → Words8 → Words8
unfolding big_sigma0 big_sigma1 ch maj
mix k w s =
    let t1 = (s.h + big_sigma1 s.e + ch s.e s.f s.g + k + w) % 2 ^ 32 in
    let t2 = (big_sigma0 s.a + maj s.a s.b s.c) % 2 ^ 32 in
    record {
      a = (t1 + t2) % 2 ^ 32;
      b = s.a;
      c = s.b;
      d = s.c;
      e = (s.d + t1) % 2 ^ 32;
      f = s.e;
      g = s.f;
      h = s.g;
    }

mix_words : List ℕ → List ℕ → Words8 → Words8
unfolding mix
mix_words (k ∷ ks) (w ∷ ws) s = mix_words ks ws (mix k w s)
mix_words _ _ s = s

abbrev add_words : Words8 → Words8 → Words8
add_words s t = record {
  a = (s.a + t.a) % 2 ^ 32;
  b = (s.b + t.b) % 2 ^ 32;
  c = (s.c + t.c) % 2 ^ 32;
  d = (s.d + t.d) % 2 ^ 32;
  e = (s.e + t.e) % 2 ^ 32;
  f = (s.f + t.f) % 2 ^ 32;
  g = (s.g + t.g) % 2 ^ 32;
  h = (s.h + t.h) % 2 ^ 32;
}

-- `compress` on the words of the state and a block of 64 bytes.
unfoldable pub compress : Words8 → List ℕ → Words8
unfolding load_words extend_words mix_words
compress s block =
    add_words s (mix_words round_constants (extend_words 48 16 (load_words 16 0 block [])) s)

abbrev pub initial_words : Words8
initial_words = record {
  a = 0x6a09e667;
  b = 0xbb67ae85;
  c = 0x3c6ef372;
  d = 0xa54ff53a;
  e = 0x510e527f;
  f = 0x9b05688c;
  g = 0x1f83d9ab;
  h = 0x5be0cd19;
}
