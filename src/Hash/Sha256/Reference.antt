-- ===== src/Hash/Sha256/Reference.antt =====
-- The definition of SHA-256 on a whole input, and the streaming code against it.
use randioum.Base.{
  length-drop, ℕ, zero, suc, ◌+◌, ◌-◌, ◌*◌, ◌/◌, ◌%◌, ◌^◌, ◌≡◌, refl, sym, ap, ap₂, subst, ◌∙◌, leb,
  if◌then◌else◌, List, [], ◌∷◌, ◌++◌, length, length-append, length-replicate, replicate, All,
  arith,
}
use randioum.Codec.Bytes.{IsByte}
use randioum.Hash.Words.{Words8, initial_words}
use randioum.Hash.Sha256.{
  Sha256State, initial_state, update, padding, be_bytes, store_words, finalize, sha256, sha256_2x32,
}
use randioum.Hash.Sha256.Stream.{hash_blocks, IsAbsorbed, initial-IsAbsorbed, Has, update-Has}

-- The input, a byte 0x80, the fewest zeros that leave 8 bytes to a multiple of 64, and the number of
-- bits in 8 bytes.
abbrev pub padded : List ℕ → List ℕ
padded m =
    m ++ (0x80 ∷ replicate ((55 + 64 - length m % 64) % 64) 0 ++ be_bytes 8 (8 * length m % 2 ^ 64))

-- `compress` on the blocks of the padded input, in order, and the words of the last state.
unfoldable pub reference : List ℕ → List ℕ
reference m = store_words (hash_blocks (length (padded m) / 64) initial_words (padded m))

length-be_bytes : (k v : ℕ) → length (be_bytes k v) ≡ k
unfolding be_bytes
length-be_bytes zero v = refl
length-be_bytes (suc k) v = omega (arith, length-be_bytes k v)

padding_exact :
    (m : List ℕ) (len total : ℕ)
    → len ≡ length m % 64
    → total ≡ length m % 2 ^ 64
    → m ++ padding len (total * 8 % 2 ^ 64) ≡ padded m
unfolding padding
padding_exact m len total e f =
    ap₂ (λ z b. m ++ (0x80 ∷ replicate z 0 ++ be_bytes 8 b)) (zeros len (length m) e)
      (omega (arith, f))
  where
    zeros :
        (k n : ℕ)
        → k ≡ n % 64
        → (if leb ((k + 1) % 64) 56 then 56 - (k + 1) % 64 else 56 + 64 - (k + 1) % 64)
          ≡ (55 + 64 - n % 64) % 64
    zeros k n h = ground arith

padded_blocks : (m : List ℕ) → length (padded m) % 64 ≡ 0
padded_blocks m = omega (
  arith,
  length-append m
      (0x80 ∷ replicate ((55 + 64 - length m % 64) % 64) 0 ++ be_bytes 8 (8 * length m % 2 ^ 64)),
  length-append (replicate ((55 + 64 - length m % 64) % 64) 0) (be_bytes 8 (8 * length m % 2 ^ 64)),
  length-replicate {A = ℕ} ((55 + 64 - length m % 64) % 64) 0,
  length-be_bytes 8 (8 * length m % 2 ^ 64),
)

buffered :
    (m : List ℕ) (h : Words8) (buffer : List ℕ)
    → IsAbsorbed m h buffer
    → length buffer ≡ length m % 64
buffered m h buffer a =
    omega (arith, a.whole, a.part, length-drop (64 * a.blocks) m, ap length a.remaining)

whole_words :
    (m : List ℕ) (h : Words8) (buffer : List ℕ)
    → IsAbsorbed m h buffer
    → length m % 64 ≡ 0
    → h ≡ hash_blocks (length m / 64) initial_words m
whole_words m h buffer a whole =
    a.words
    ∙ ap (λ n. hash_blocks n initial_words m) {x = a.blocks} {y = length m / 64}
        (omega (arith, a.whole, a.part, whole))

pub finalize-reference : (m : List ℕ) (s : Sha256State) → Has m s → finalize s ≡ reference m
unfolding finalize reference
finalize-reference m s has =
    let pad = padding (length s.buffer) (s.total_len * 8 % 2 ^ 64) in
    let exact =
      padding_exact m (length s.buffer) s.total_len (buffered m s.h s.buffer has.absorbed)
        has.total in
    let ended = subst (λ t. Has t (update s pad)) exact (update-Has m pad s has) in
    ap store_words (
      whole_words (padded m) (update s pad).h (update s pad).buffer ended.absorbed
        (padded_blocks m))

initial-Has : Has [] initial_state
initial-Has = record { absorbed = initial-IsAbsorbed; total = omega arith }

-- The streaming code computes SHA-256 as it is defined on the whole input: the input is padded, and
-- its blocks of 64 bytes are compressed in order.
pub sha256-reference : (m : List ℕ) → sha256 m ≡ reference m
unfolding sha256
sha256-reference m = finalize-reference m _ (update-Has [] m initial_state initial-Has)

-- Hashing two parts one after the other is hashing them joined, at any lengths.
pub sha256_2x32-sha256 : (left right : List ℕ) → sha256_2x32 left right ≡ sha256 (left ++ right)
unfolding sha256_2x32
sha256_2x32-sha256 left right =
    finalize-reference (left ++ right) _
      (update-Has left right _ (update-Has [] left initial_state initial-Has))
    ∙ sym (sha256-reference (left ++ right))

-- A hash is 32 bytes.
pub sha256-IsHash : (m : List ℕ) → (length (sha256 m) ≡ 32) × All IsByte (sha256 m)
unfolding sha256 finalize
sha256-IsHash m = (refl, omega arith)
