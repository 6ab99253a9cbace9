-- ===== src/Codec/Block.antt =====
-- Whole blocks: `encode_block` and `decode_block` of src/block_full_codec.cpp.
-- On an error the C++ output may hold part of a block; the overload that returns an optional drops
-- it, and so does the `Result` here. Offsets are sums of numbers below 2 ^ 32 and the size of the
-- input, so `size_t` does not wrap.
pub mod RoundTrip
use randioum.Base.{
  ℕ, zero, suc, ◌+◌, ◌%◌, ◌^◌, List, [], ◌∷◌, ◌++◌, not, ltb, ◌==◌, if◌then◌else◌, length, take,
  drop,
}
use randioum.Codec.Bytes.{read_u32_le, append_u32_le}
use randioum.Codec.Header
use randioum.Codec.Header.{BlockHeader, header_size_bytes, decode_header, encode_header}
use randioum.Codec.Tx
use randioum.Codec.Tx.{Transaction, decode_tx, encode_tx}
use randioum.Result.{Result, ok, err}

pub record Block : Type 0 where
  pub header : BlockHeader
  pub transactions : List Transaction

pub record DecodeOptions : Type 0 where
  pub max_txs : ℕ
  pub max_tx_bytes : ℕ
  pub max_block_bytes : ℕ

pub data DecodeStatus : Type 0 where
  too_short header_bad too_many_txs tx_len_too_large block_too_large tx_decode_failed
        length_mismatch :
      DecodeStatus

-- `txopt.max_payload_bytes = opt.max_tx_bytes`
abbrev pub tx_options : DecodeOptions → Tx.DecodeOptions
tx_options opt = record { max_payload_bytes = opt.max_tx_bytes }

-- One round of the loop: the transaction at the offset, and the offset behind it.
unfoldable pub decode_next : DecodeOptions → List ℕ → ℕ → Result DecodeStatus (Transaction × ℕ)
decode_next opt bytes off =
    let tlen = read_u32_le bytes off in
    if ltb (length bytes) (off + 4)
    then err too_short
    else if ltb opt.max_tx_bytes tlen
    then err tx_len_too_large
    else if ltb (length bytes) (off + 4 + tlen)
    then err too_short
    else elim (decode_tx (take tlen (drop (off + 4) bytes)) (tx_options opt)) [
      | err e ↦ err tx_decode_failed
      | ok tx ↦ ok (tx, off + 4 + tlen)
    ]

-- The loop over the transactions, with the rounds left first, and the test that follows it.
unfoldable pub decode_txs :
    ℕ → DecodeOptions → List ℕ → ℕ → List Transaction → Result DecodeStatus (List Transaction)
decode_txs zero opt bytes off out =
    if not (off == length bytes) then err length_mismatch else ok out
decode_txs (suc rounds) opt bytes off out = elim (decode_next opt bytes off) [
  | err e ↦ err e
  | ok (tx, next) ↦ decode_txs rounds opt bytes next (out ++ (tx ∷ []))
]

unfoldable pub decode_block : List ℕ → DecodeOptions → Result DecodeStatus Block
decode_block bytes opt =
    if ltb (length bytes) (header_size_bytes + 4)
    then err too_short
    else if ltb opt.max_block_bytes (length bytes)
    then err block_too_large
    else elim (decode_header (take header_size_bytes bytes)) [
      | err e ↦ err header_bad
      | ok hdr ↦
          let tx_count = read_u32_le bytes header_size_bytes in
          if ltb opt.max_txs tx_count
          then err too_many_txs
          else elim (decode_txs tx_count opt bytes (header_size_bytes + 4) []) [
            | err e ↦ err e
            | ok txs ↦ ok (record { header = hdr; transactions = txs })
          ]
    ]

unfoldable pub append_txs : List ℕ → List Transaction → List ℕ
append_txs out [] = out
append_txs out (tx ∷ txs) =
    let tb = encode_tx tx in append_txs (append_u32_le out (length tb % 2 ^ 32) ++ tb) txs

unfoldable pub encode_block : Block → List ℕ
encode_block b =
    append_txs (append_u32_le (encode_header b.header) (length b.transactions % 2 ^ 32))
      b.transactions
