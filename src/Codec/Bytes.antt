-- ===== src/Codec/Bytes.antt =====
-- Little-endian integers in byte vectors: `read_u32_le`, `read_u64_le`, `append_u32_le` and
-- `append_u64_le`. src/tx_codec.cpp, src/block_codec.cpp, src/block_full_codec.cpp and src/vm.cpp
-- each hold a copy of the same text; the definitions here are those of src/tx_codec.cpp.
-- A byte vector is a list of numbers below 256. Every caller tests the size before it reads, so
-- the byte 0 that stands for a read past the end is never used by a decoder.
pub mod Laws
pub mod Inverse
pub mod Range
use randioum.Base.{ℕ, zero, suc, ◌+◌, ◌*◌, ◌/◌, ◌%◌, ◌^◌, ◌<◌, List, [], ◌∷◌, ◌++◌, bit_or, get_or}

abbrev pub IsByte : ℕ → Type 0
IsByte b = b < 256

abbrev pub IsU16 : ℕ → Type 0
IsU16 v = v < 2 ^ 16

abbrev pub IsU32 : ℕ → Type 0
IsU32 v = v < 2 ^ 32

abbrev pub IsU64 : ℕ → Type 0
IsU64 v = v < 2 ^ 64

abbrev pub byte_at : List ℕ → ℕ → ℕ
byte_at bytes i = get_or 0 bytes i

unfoldable pub read_u32_le : List ℕ → ℕ → ℕ
read_u32_le bytes off =
    bit_or
      (bit_or (bit_or (byte_at bytes off) (byte_at bytes (off + 1) * 2 ^ 8))
        (byte_at bytes (off + 2) * 2 ^ 16))
      (byte_at bytes (off + 3) * 2 ^ 24)

-- The loop `for (i = 0; i < 8; ++i) v |= bytes[off + i] << (8 * i)`, with the rounds left first.
pub read_u64_loop : ℕ → ℕ → List ℕ → ℕ → ℕ → ℕ
read_u64_loop zero i bytes off v = v
read_u64_loop (suc rounds) i bytes off v =
    read_u64_loop rounds (i + 1) bytes off (bit_or v (byte_at bytes (off + i) * 2 ^ (8 * i)))

unfoldable pub read_u64_le : List ℕ → ℕ → ℕ
unfolding read_u64_loop
read_u64_le bytes off = read_u64_loop 8 0 bytes off 0

unfoldable pub append_u32_le : List ℕ → ℕ → List ℕ
append_u32_le out v =
    (((out ++ (v % 256 ∷ [])) ++ (v / 2 ^ 8 % 256 ∷ [])) ++ (v / 2 ^ 16 % 256 ∷ []))
    ++ (v / 2 ^ 24 % 256 ∷ [])

pub append_u64_loop : ℕ → ℕ → List ℕ → ℕ → List ℕ
append_u64_loop zero i out v = out
append_u64_loop (suc rounds) i out v =
    append_u64_loop rounds (i + 1) (out ++ (v / 2 ^ (8 * i) % 256 ∷ [])) v

unfoldable pub append_u64_le : List ℕ → ℕ → List ℕ
unfolding append_u64_loop
append_u64_le out v = append_u64_loop 8 0 out v
