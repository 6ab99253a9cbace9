-- ===== src/Codec/Bytes/Laws.antt =====
-- Reading and writing little-endian integers against an arithmetic description.
use randioum.Base.{
  ℕ, zero, suc, ◌+◌, ◌*◌, ◌/◌, ◌%◌, ◌^◌, ◌<◌, ◌≡◌, refl, ap, ◌∙◌, List, [], ◌∷◌, ◌++◌, append_assoc,
  All, length, drop, get_or-drop, bit_or, arith,
}
use randioum.Base.Bits.{bit_or-shift}
use randioum.Codec.Bytes.{IsByte, read_u32_le, read_u64_le, append_u32_le, append_u64_le, IsU64}
use native.Mathlib.Nat.{pow-suc}

-- The `k` lowest base-256 digits, lowest first.
abbrev pub le_bytes : ℕ → ℕ → List ℕ
le_bytes zero v = []
le_bytes (suc k) v = v % 256 ∷ le_bytes k (v / 256)

pub le_bytes-IsByte : (k v : ℕ) → All IsByte (le_bytes k v)
le_bytes-IsByte zero v = tt
le_bytes-IsByte (suc k) v = (omega arith, le_bytes-IsByte k (v / 256))

pub length-le_bytes : (k v : ℕ) → length (le_bytes k v) ≡ k
length-le_bytes zero v = refl
length-le_bytes (suc k) v = omega (arith, length-le_bytes k (v / 256))

pub append_u32_le_lem : (out : List ℕ) (v : ℕ) → append_u32_le out v ≡ out ++ le_bytes 4 v
unfolding append_u32_le
append_u32_le_lem out v = simp append_assoc (ap (λ t. out ++ t) (ground arith))

pub append_u64_le_lem : (out : List ℕ) (v : ℕ) → append_u64_le out v ≡ out ++ le_bytes 8 v
unfolding append_u64_le
append_u64_le_lem out v = simp append_assoc (ap (λ t. out ++ t) (ground arith))

pub read_u32_le-drop :
    (bytes : List ℕ) (off : ℕ) → read_u32_le bytes off ≡ read_u32_le (drop off bytes) 0
unfolding read_u32_le
read_u32_le-drop bytes off = ground (
  arith,
  get_or-drop 0 bytes off 0,
  get_or-drop 0 bytes off 1,
  get_or-drop 0 bytes off 2,
  get_or-drop 0 bytes off 3,
)

pub or_four :
    (a b c d : ℕ)
    → IsByte a
    → IsByte b
    → IsByte c
    → bit_or (bit_or (bit_or a (b * 2 ^ 8)) (c * 2 ^ 16)) (d * 2 ^ 24)
      ≡ a + b * 2 ^ 8 + c * 2 ^ 16 + d * 2 ^ 24
or_four a b c d ha hb hc = rw (bit_or-shift 8 a b ha) (
    rw (bit_or-shift 16 (a + b * 2 ^ 8) c (omega arith))
      (bit_or-shift 24 (a + b * 2 ^ 8 + c * 2 ^ 16) d (omega arith)))

-- Four bytes read back the low 32 bits of what they were written from.
pub read_u32_le-head : (v : ℕ) (rest : List ℕ) → read_u32_le (le_bytes 4 v ++ rest) 0 ≡ v % 2 ^ 32
unfolding read_u32_le
read_u32_le-head v rest = or_four _ _ _ _ (omega arith) (omega arith) (omega arith) ∙ omega arith

pub read_u64_le-drop :
    (bytes : List ℕ) (off : ℕ) → read_u64_le bytes off ≡ read_u64_le (drop off bytes) 0
unfolding read_u64_le
read_u64_le-drop bytes off = ground (
  arith,
  get_or-drop 0 bytes off 0,
  get_or-drop 0 bytes off 1,
  get_or-drop 0 bytes off 2,
  get_or-drop 0 bytes off 3,
  get_or-drop 0 bytes off 4,
  get_or-drop 0 bytes off 5,
  get_or-drop 0 bytes off 6,
  get_or-drop 0 bytes off 7,
)

-- The number that little-endian bytes stand for.
abbrev pub le_value : List ℕ → ℕ
le_value [] = 0
le_value (b ∷ bs) = b + 256 * le_value bs

pub le_value-le_bytes : (k v : ℕ) → v < 256 ^ k → le_value (le_bytes k v) ≡ v
le_value-le_bytes zero v h = omega arith
le_value-le_bytes (suc k) v h =
    omega (arith, le_value-le_bytes k (v / 256) (omega (arith, pow-suc 256 k)))

pub or_eight :
    (a b c d e f g h : ℕ)
    → All IsByte (a ∷ b ∷ c ∷ d ∷ e ∷ f ∷ g ∷ h ∷ [])
    → (rest : List ℕ)
    → read_u64_le (a ∷ b ∷ c ∷ d ∷ e ∷ f ∷ g ∷ h ∷ rest) 0
      ≡ le_value (a ∷ b ∷ c ∷ d ∷ e ∷ f ∷ g ∷ h ∷ [])
unfolding read_u64_le
or_eight a b c d e f g h (ha, (hb, (hc, (hd, (he, (hf, (hg, _))))))) rest =
    rw (bit_or-shift 0 0 a (omega arith)) (
      rw (bit_or-shift 8 (0 + a * 2 ^ 0) b (omega arith)) (
        rw (bit_or-shift 16 (0 + a * 2 ^ 0 + b * 2 ^ 8) c (omega arith)) (
          rw (bit_or-shift 24 (0 + a * 2 ^ 0 + b * 2 ^ 8 + c * 2 ^ 16) d (omega arith)) (
            rw
              (bit_or-shift 32 (0 + a * 2 ^ 0 + b * 2 ^ 8 + c * 2 ^ 16 + d * 2 ^ 24) e
                (omega arith))
              (rw
                (bit_or-shift 40 (0 + a * 2 ^ 0 + b * 2 ^ 8 + c * 2 ^ 16 + d * 2 ^ 24 + e * 2 ^ 32)
                  f (omega arith))
                (rw
                  (bit_or-shift 48
                    (0 + a * 2 ^ 0 + b * 2 ^ 8 + c * 2 ^ 16 + d * 2 ^ 24 + e * 2 ^ 32 + f * 2 ^ 40)
                    g (omega arith))
                  (rw
                    (bit_or-shift 56
                      (0
                        + a * 2 ^ 0
                        + b * 2 ^ 8
                        + c * 2 ^ 16
                        + d * 2 ^ 24
                        + e * 2 ^ 32
                        + f * 2 ^ 40
                        + g * 2 ^ 48)
                      h (omega arith))
                    (omega arith))))))))

pub read_u64_le-head : (v : ℕ) (rest : List ℕ) → IsU64 v → read_u64_le (le_bytes 8 v ++ rest) 0 ≡ v
read_u64_le-head v rest h =
    or_eight _ _ _ _ _ _ _ _ (le_bytes-IsByte 8 v) rest ∙ le_value-le_bytes 8 v (omega arith)

-- The two readers at an offset where an integer was written.
pub read_u32_le-at :
    (bytes : List ℕ) (off v : ℕ) (rest : List ℕ)
    → drop off bytes ≡ le_bytes 4 v ++ rest
    → read_u32_le bytes off ≡ v % 2 ^ 32
read_u32_le-at bytes off v rest e =
    read_u32_le-drop bytes off ∙ ap (λ t. read_u32_le t 0) e ∙ read_u32_le-head v rest

pub read_u64_le-at :
    (bytes : List ℕ) (off v : ℕ) (rest : List ℕ)
    → IsU64 v
    → drop off bytes ≡ le_bytes 8 v ++ rest
    → read_u64_le bytes off ≡ v
read_u64_le-at bytes off v rest h e =
    read_u64_le-drop bytes off ∙ ap (λ t. read_u64_le t 0) e ∙ read_u64_le-head v rest h
