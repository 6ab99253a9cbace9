-- ===== src/Hash/Sha256.antt =====
-- The streaming interface of src/sha256.cpp, and `sha256`.
pub mod Stream
pub mod Reference
use Prim.Native.Nat.{min}
use randioum.Base.{
  ℕ, zero, suc, ◌+◌, ◌-◌, ◌*◌, ◌/◌, ◌%◌, ◌^◌, ltb, leb, ◌==◌, if◌then◌else◌, List, [], ◌∷◌, ◌++◌,
  length, take, drop, replicate,
}
use randioum.Hash.Words.{Words8, compress, initial_words}

-- Of `buffer`, the bytes below `buffer_len`: what lies behind them is not read.
pub record Sha256State : Type 0 where
  pub h : Words8
  pub buffer : List ℕ
  pub total_len : ℕ

abbrev pub initial_state : Sha256State
initial_state = record { h = initial_words; buffer = []; total_len = 0 }

-- The loop over whole blocks: the words behind it, and the bytes that remain.
unfoldable pub absorb_blocks : ℕ → Words8 → List ℕ → Words8 × List ℕ
absorb_blocks zero h data_bytes = (h, data_bytes)
absorb_blocks (suc fuel) h data_bytes =
    let rest = absorb_blocks fuel (compress h (take 64 data_bytes)) (drop 64 data_bytes) in
    if leb 64 (length data_bytes) then rest else (h, data_bytes)

-- The words and the buffer when the buffer has been filled up, and the bytes that are left.
unfoldable pub fill_buffer : Words8 → List ℕ → List ℕ → Words8 × List ℕ × List ℕ
fill_buffer h buffer data_bytes =
    let to_copy = min (64 - length buffer) (length data_bytes) in
    let filled = buffer ++ take to_copy data_bytes in
    if length buffer == 0
    then (h, buffer, data_bytes)
    else if length filled == 64
    then (compress h filled, [], drop to_copy data_bytes)
    else (h, filled, drop to_copy data_bytes)

-- From the loop over whole blocks on.
unfoldable pub absorb_rest : Words8 → List ℕ → List ℕ → Words8 × List ℕ
absorb_rest h buffer data_bytes =
    let (words, remaining) = absorb_blocks (length data_bytes) h data_bytes in
    (words, (if length remaining == 0 then buffer else remaining))

unfoldable pub update : Sha256State → List ℕ → Sha256State
update s data_bytes =
    let (h, buffer, rest) = fill_buffer s.h s.buffer data_bytes in
    let (words, remaining) = absorb_rest h buffer rest in
    record { h = words; buffer = remaining; total_len = (s.total_len + length data_bytes) % 2 ^ 64 }

abbrev pub store_be_u32 : ℕ → List ℕ
store_be_u32 v = v / 2 ^ 24 % 256 ∷ v / 2 ^ 16 % 256 ∷ v / 2 ^ 8 % 256 ∷ v % 256 ∷ []

abbrev pub store_words : Words8 → List ℕ
store_words s =
    store_be_u32 s.a
    ++ store_be_u32 s.b
    ++ store_be_u32 s.c
    ++ store_be_u32 s.d
    ++ store_be_u32 s.e
    ++ store_be_u32 s.f
    ++ store_be_u32 s.g
    ++ store_be_u32 s.h

-- The loop that writes `bit_len`, highest byte first, with the rounds left first.
unfoldable pub be_bytes : ℕ → ℕ → List ℕ
be_bytes zero v = []
be_bytes (suc k) v = v / 2 ^ (8 * k) % 256 ∷ be_bytes k v

-- The bytes of `pad` below `pad_len`.
unfoldable pub padding : ℕ → ℕ → List ℕ
padding buffer_len bit_len =
    let used = (buffer_len + 1) % 64 in
    let zeros = if leb used 56 then 56 - used else 56 + 64 - used in
    0x80 ∷ replicate zeros 0 ++ be_bytes 8 bit_len

unfoldable pub finalize : Sha256State → List ℕ
finalize s = store_words (update s (padding (length s.buffer) (s.total_len * 8 % 2 ^ 64))).h

unfoldable pub sha256 : List ℕ → List ℕ
sha256 data_bytes = finalize (update initial_state data_bytes)

unfoldable pub sha256_2x32 : List ℕ → List ℕ → List ℕ
sha256_2x32 left right = finalize (update (update initial_state left) right)
