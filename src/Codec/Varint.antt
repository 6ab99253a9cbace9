-- ===== src/Codec/Varint.antt =====
-- Integers of variable size: include/rand/varint.hpp and src/varint.cpp.
pub mod RoundTrip
use randioum.Base.{
  ℕ, zero, suc, ◌+◌, ◌-◌, ◌*◌, ◌/◌, ◌%◌, ◌^◌, Bool, true, false, not, ◌&&◌, ltb, leb, ◌==◌,
  if◌then◌else◌, List, [], ◌∷◌, bit_or,
}
use randioum.Result.{Result, ok, err}

pub data DecodeStatus : Type 0 where
  empty unterminated too_long overflow non_canonical : DecodeStatus

pub record DecodeOptions : Type 0 where
  pub require_canonical : Bool

-- The low seven bits of a number are its remainder by 128.
unfoldable pub encode_loop : ℕ → ℕ → List ℕ
encode_loop zero x = []
encode_loop (suc fuel) x =
    let rest = encode_loop fuel (x / 128) in
    if x / 128 == 0 then x % 128 ∷ [] else bit_or (x % 128) 128 ∷ rest

-- Ten rounds of seven bits suffice for 64 bits.
unfoldable pub encode_u64 : ℕ → List ℕ
encode_u64 v = encode_loop 10 v

-- The last byte has been read.
unfoldable pub finish_u64 : DecodeOptions → ℕ → ℕ → Result DecodeStatus (ℕ × ℕ)
finish_u64 opt v consumed =
    let min_shift = (consumed - 1) * 7 in
    if not opt.require_canonical
    then ok (v, consumed)
    else if v == 0
    then if not (consumed == 1) then err non_canonical else ok (v, consumed)
    else if leb 64 min_shift
    then err overflow
    else if ltb v (2 ^ min_shift)
    then err non_canonical
    else ok (v, consumed)

unfoldable pub decode_loop : DecodeOptions → List ℕ → ℕ → ℕ → ℕ → Result DecodeStatus (ℕ × ℕ)
decode_loop opt [] i v shift = err unterminated
decode_loop opt (b ∷ bytes) i v shift =
    let chunk = b % 128 in
    let next = bit_or v (chunk * 2 ^ shift % 2 ^ 64) in
    let rest = decode_loop opt bytes (i + 1) next (shift + 7) in
    if leb 64 shift
    then err too_long
    else if (shift == 63) && ltb 1 chunk
    then err overflow
    else if ltb b 128
    then finish_u64 opt next (i + 1)
    else if i == 9
    then err too_long
    else rest

-- The value, and the number of bytes that it takes.
unfoldable pub decode_u64 : DecodeOptions → List ℕ → Result DecodeStatus (ℕ × ℕ)
decode_u64 opt [] = err empty
decode_u64 opt (b ∷ bytes) = decode_loop opt (b ∷ bytes) 0 0 0
