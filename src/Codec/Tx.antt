-- ===== src/Codec/Tx.antt =====
-- Transactions and their byte format: include/rand/tx.hpp, src/tx_codec.cpp (`encode_tx`,
-- `decode_tx`) and src/tx.cpp (`serialize_tx`, whose text is that of `encode_tx`).
-- A `DecodeStatus` other than `Ok` is the error of a `Result`: the decoder writes its output only
-- when it returns `Ok`. `size_t` sums of a 32-bit length and a small constant cannot wrap.
pub mod Encoding
pub mod RoundTrip
pub mod Ambiguity
pub mod Canonical
use randioum.Base.{
  ℕ, ◌+◌, ◌%◌, ◌^◌, List, [], ◌++◌, not, ◌||◌, Bool, leb, ltb, ◌==◌, if◌then◌else◌, length, drop,
}
use randioum.Codec.Bytes.{read_u32_le, read_u64_le, append_u32_le, append_u64_le}
use randioum.Result.{Result, ok, err}

pub record Transaction : Type 0 where
  pub version : ℕ
  pub nonce : ℕ
  pub fee : ℕ
  pub max_fee_per_gas : ℕ
  pub priority_fee_per_gas : ℕ
  pub compute_limit : ℕ
  pub compute_price_per_unit : ℕ
  pub payload : List ℕ

pub record DecodeOptions : Type 0 where
  pub max_payload_bytes : ℕ

pub data DecodeStatus : Type 0 where
  too_short length_mismatch payload_too_large : DecodeStatus

-- The last two tests of `decode_tx` on a version of 2 or more, and what it writes.
unfoldable pub finish_v2 : DecodeOptions → List ℕ → ℕ → ℕ → ℕ → ℕ → Result DecodeStatus Transaction
finish_v2 opt bytes plen payload_off compute_limit compute_price =
    if ltb opt.max_payload_bytes plen
    then err payload_too_large
    else if not (payload_off + plen == length bytes)
    then err length_mismatch
    else ok (record {
      version = read_u32_le bytes 0;
      nonce = read_u64_le bytes 4;
      fee = read_u64_le bytes 12;
      max_fee_per_gas = read_u64_le bytes 12;
      priority_fee_per_gas = read_u64_le bytes 20;
      compute_limit = compute_limit;
      compute_price_per_unit = compute_price;
      payload = drop payload_off bytes;
    })

-- Version 2: the layout without compute fields is taken whenever its length fits.
unfoldable pub decode_v2 : DecodeOptions → List ℕ → Result DecodeStatus Transaction
decode_v2 opt bytes =
    if ltb (length bytes) 32
    then err too_short
    else if 32 + read_u32_le bytes 28 == length bytes
    then finish_v2 opt bytes (read_u32_le bytes 28) 32 0 0
    else if ltb (length bytes) 48
    then err too_short
    else finish_v2 opt bytes (read_u32_le bytes 44) 48 (read_u64_le bytes 28) (read_u64_le bytes 36)

unfoldable pub decode_v1 : DecodeOptions → List ℕ → Result DecodeStatus Transaction
decode_v1 opt bytes =
    if ltb opt.max_payload_bytes (read_u32_le bytes 20)
    then err payload_too_large
    else if not (24 + read_u32_le bytes 20 == length bytes)
    then err length_mismatch
    else ok (record {
      version = read_u32_le bytes 0;
      nonce = read_u64_le bytes 4;
      fee = read_u64_le bytes 12;
      max_fee_per_gas = 0;
      priority_fee_per_gas = 0;
      compute_limit = 0;
      compute_price_per_unit = 0;
      payload = drop 24 bytes;
    })

unfoldable pub decode_tx : List ℕ → DecodeOptions → Result DecodeStatus Transaction
decode_tx bytes opt =
    if ltb (length bytes) 24
    then err too_short
    else if leb 2 (read_u32_le bytes 0)
    then decode_v2 opt bytes
    else decode_v1 opt bytes

-- `tx.compute_limit != 0 || tx.compute_price_per_unit != 0`
abbrev pub has_compute : Transaction → Bool
has_compute tx = not (tx.compute_limit == 0) || not (tx.compute_price_per_unit == 0)

-- `(tx.max_fee_per_gas != 0) ? tx.max_fee_per_gas : tx.fee`
abbrev pub max_fee : Transaction → ℕ
max_fee tx = if not (tx.max_fee_per_gas == 0) then tx.max_fee_per_gas else tx.fee

unfoldable pub append_fees : List ℕ → Transaction → List ℕ
append_fees out tx =
    if leb 2 tx.version
    then (let out' = append_u64_le (append_u64_le out (max_fee tx)) tx.priority_fee_per_gas in
        if has_compute tx
        then append_u64_le (append_u64_le out' tx.compute_limit) tx.compute_price_per_unit
        else out')
    else append_u64_le out tx.fee

unfoldable pub encode_tx : Transaction → List ℕ
unfolding append_fees
encode_tx tx =
    append_u32_le (append_fees (append_u64_le (append_u32_le [] tx.version) tx.nonce) tx)
      (length tx.payload % 2 ^ 32)
    ++ tx.payload

-- The function of src/tx.cpp that the transaction id is taken from.
unfoldable pub serialize_tx : Transaction → List ℕ
unfolding append_fees
serialize_tx tx =
    append_u32_le (append_fees (append_u64_le (append_u32_le [] tx.version) tx.nonce) tx)
      (length tx.payload % 2 ^ 32)
    ++ tx.payload
