-- ===== src/Codec/Header.antt =====
-- Block headers and their 92 bytes: include/rand/block.hpp and src/block_codec.cpp.
-- A 256-bit hash is its list of 32 bytes.
pub mod RoundTrip
pub mod Canonical
use randioum.Base.{ℕ, ◌+◌, List, [], ◌++◌, not, ◌==◌, if◌then◌else◌, length, take, drop}
use randioum.Codec.Bytes.{read_u32_le, read_u64_le, append_u32_le, append_u64_le}
use randioum.Result.{Result, ok, err}

pub record BlockHeader : Type 0 where
  pub version : ℕ
  pub height : ℕ
  pub prev_block : List ℕ
  pub merkle_root : List ℕ
  pub timestamp_unix_seconds : ℕ
  pub nonce : ℕ

pub data DecodeStatus : Type 0 where
  wrong_size : DecodeStatus

abbrev pub header_size_bytes : ℕ
header_size_bytes = 4 + 8 + 32 + 32 + 8 + 8

unfoldable pub decode_header : List ℕ → Result DecodeStatus BlockHeader
decode_header bytes =
    if not (length bytes == header_size_bytes)
    then err wrong_size
    else ok (record {
      version = read_u32_le bytes 0;
      height = read_u64_le bytes 4;
      prev_block = take 32 (drop 12 bytes);
      merkle_root = take 32 (drop 44 bytes);
      timestamp_unix_seconds = read_u64_le bytes 76;
      nonce = read_u64_le bytes 84;
    })

unfoldable pub encode_header : BlockHeader → List ℕ
encode_header h =
    append_u64_le
      (append_u64_le
        ((append_u64_le (append_u32_le [] h.version) h.height ++ h.prev_block) ++ h.merkle_root)
        h.timestamp_unix_seconds)
      h.nonce
