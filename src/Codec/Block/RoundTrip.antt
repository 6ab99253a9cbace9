-- ===== src/Codec/Block/RoundTrip.antt =====
-- `decode_block` after `encode_block`.
use randioum.Base.{
  ℕ, ◌+◌, ◌%◌, ◌^◌, ◌≤◌, ◌≡◌, refl, ap, ◌∙◌, sym, List, [], ◌∷◌, ◌++◌, append_assoc, append-nil,
  All, length, length-append, drop-append, take-append, false, ltb, take, drop, arith,
}
use mathlib.Core.List.{map}
use randioum.Result.{ok}
use randioum.Codec.Bytes.{IsU32, read_u32_le, append_u32_le}
use randioum.Codec.Bytes.Laws.{le_bytes, append_u32_le_lem, read_u32_le-at}
use randioum.Codec.Bytes.Inverse.{drop-drop}
use randioum.Codec.Header.{header_size_bytes, decode_header}
use randioum.Codec.Header.RoundTrip.{
  IsHeader, header_layout, encode_header-layout, length-header_layout, decode_header-encode_header,
}
use randioum.Codec.Tx.{Transaction, encode_tx, decode_tx}
use randioum.Codec.Tx.Encoding.{IsTx}
use randioum.Codec.Tx.RoundTrip.{IsAmbiguous, canonical, decode_tx-encode_tx}
use randioum.Codec.Block.{
  Block, DecodeOptions, tx_options, decode_next, decode_txs, decode_block, append_txs, encode_block,
}

-- A transaction that the block format carries: its encoding is within the limits and unambiguous.
pub record IsCarried (opt : DecodeOptions) (tx : Transaction) : Type 0 where
  pub shape : IsTx tx
  pub clear : ¬ IsAmbiguous tx
  pub within : length (encode_tx tx) ≤ opt.max_tx_bytes
  pub fits : IsU32 (length (encode_tx tx))

-- A length and the bytes of each transaction.
abbrev pub chunks : List Transaction → List ℕ
chunks [] = []
chunks (tx ∷ txs) = le_bytes 4 (length (encode_tx tx) % 2 ^ 32) ++ (encode_tx tx ++ chunks txs)

append_txs-chunks : (out : List ℕ) (txs : List Transaction) → append_txs out txs ≡ out ++ chunks txs
unfolding append_txs
append_txs-chunks out [] = sym (append-nil out)
append_txs-chunks out (tx ∷ txs) =
    append_txs-chunks (append_u32_le out (length (encode_tx tx) % 2 ^ 32) ++ encode_tx tx) txs
    ∙ rw append_u32_le_lem (simp append_assoc)

payload-le-encode_tx : (tx : Transaction) → length tx.payload ≤ length (encode_tx tx)
unfolding encode_tx
payload-le-encode_tx tx = rw length-append (omega arith)

module _ (opt : DecodeOptions) where
  decode_one :
      (tx : Transaction)
      → IsCarried opt tx
      → decode_tx (encode_tx tx) (tx_options opt) ≡ ok (canonical tx)
  decode_one tx c =
      decode_tx-encode_tx tx (tx_options opt) c.shape
        (omega (arith, payload-le-encode_tx tx, c.within)) c.clear

  decode_next-chunk :
      (tx : Transaction) (txs : List Transaction) (bytes : List ℕ) (off : ℕ)
      → IsCarried opt tx
      → off + length (chunks (tx ∷ txs)) ≡ length bytes
      → drop off bytes ≡ chunks (tx ∷ txs)
      → (decode_next opt bytes off ≡ ok (canonical tx, off + 4 + length (encode_tx tx)))
        × (drop (off + 4 + length (encode_tx tx)) bytes ≡ chunks txs)
        × (off + 4 + length (encode_tx tx) + length (chunks txs) ≡ length bytes)
  unfolding decode_next
  decode_next-chunk tx txs bytes off c size e =
      let tb = encode_tx tx in
      let tlen : read_u32_le bytes off ≡ length tb =
        read_u32_le-at bytes off (length tb % 2 ^ 32) _ e ∙ omega (arith, c.fits) in
      let body : drop (off + 4) bytes ≡ tb ++ chunks txs =
        sym (drop-drop 4 off bytes) ∙ ap (drop 4) e in
      let chunk : take (length tb) (drop (off + 4) bytes) ≡ tb =
        ap (take (length tb)) body ∙ take-append tb (chunks txs) (length tb) refl in
      let sizes : off + 4 + length tb + length (chunks txs) ≡ length bytes =
        omega (arith, length-append tb (chunks txs)) in
      let no_tail : ltb (length bytes) (off + 4) ≡ false = ground arith in
      let no_big : ltb opt.max_tx_bytes (length tb) ≡ false = ground (arith, c.within) in
      let no_cut : ltb (length bytes) (off + 4 + length tb) ≡ false = ground arith in
      (
        rw (tlen, no_tail, no_big, no_cut, chunk, decode_one tx c) (rw tlen),
        sym (drop-drop (length tb) (off + 4) bytes)
            ∙ ap (drop (length tb)) body
            ∙ drop-append tb (chunks txs) (length tb) refl,
        sizes,
      )

  decode_txs-chunks :
      (txs : List Transaction) (bytes : List ℕ) (off : ℕ) (out : List Transaction)
      → All (IsCarried opt) txs
      → off + length (chunks txs) ≡ length bytes
      → drop off bytes ≡ chunks txs
      → decode_txs (length txs) opt bytes off out ≡ ok (out ++ map canonical txs)
  unfolding decode_txs
  decode_txs-chunks [] bytes off out all size e = ground (arith, append-nil out)
  decode_txs-chunks (tx ∷ txs) bytes off out (c, all) size e =
      let (step, after, sizes) = decode_next-chunk tx txs bytes off c size e in
      rw (step, decode_txs)
        (decode_txs-chunks txs bytes (off + 4 + length (encode_tx tx)) (out ++ (canonical tx ∷ []))
            all sizes after
          ∙ ap ok (append_assoc out (canonical tx ∷ []) (map canonical txs)))

-- The sizes that the format and the limits allow.
pub record IsCarriedBlock (opt : DecodeOptions) (b : Block) : Type 0 where
  pub header_shape : IsHeader b.header
  pub txs_carried : All (IsCarried opt) b.transactions
  pub count_within : length b.transactions ≤ opt.max_txs
  pub count_fits : IsU32 (length b.transactions)
  pub size_within : length (encode_block b) ≤ opt.max_block_bytes

abbrev block_layout : Block → List ℕ
block_layout b =
    header_layout b.header ++ (le_bytes 4 (length b.transactions % 2 ^ 32) ++ chunks b.transactions)

encode_block-layout : (b : Block) → encode_block b ≡ block_layout b
unfolding encode_block
encode_block-layout b =
    append_txs-chunks _ b.transactions
    ∙ rw append_u32_le_lem (rw encode_header-layout (append_assoc (header_layout b.header) _ _))

module _ (opt : DecodeOptions) (b : Block) (w : IsCarriedBlock opt b) where
  drop_count :
      drop header_size_bytes (block_layout b)
      ≡ le_bytes 4 (length b.transactions % 2 ^ 32) ++ chunks b.transactions
  drop_count =
      drop-append (header_layout b.header) _ _ (sym (length-header_layout b.header w.header_shape))

  take_header : take header_size_bytes (block_layout b) ≡ header_layout b.header
  take_header =
      take-append (header_layout b.header) _ _ (sym (length-header_layout b.header w.header_shape))

  count : read_u32_le (block_layout b) header_size_bytes ≡ length b.transactions
  count =
      read_u32_le-at (block_layout b) header_size_bytes _ _ drop_count ∙ omega (arith, w.count_fits)

  layout_size : length (block_layout b) ≡ header_size_bytes + 4 + length (chunks b.transactions)
  layout_size = omega (
    arith,
    length-append (header_layout b.header)
        (le_bytes 4 (length b.transactions % 2 ^ 32) ++ chunks b.transactions),
    length-header_layout b.header w.header_shape,
  )

  loop :
      decode_txs (length b.transactions) opt (block_layout b) (header_size_bytes + 4) []
      ≡ ok (map canonical b.transactions)
  loop =
      decode_txs-chunks opt b.transactions (block_layout b) (header_size_bytes + 4) [] w.txs_carried
        (omega (arith, layout_size))
        (sym (drop-drop 4 header_size_bytes (block_layout b)) ∙ ap (drop 4) drop_count)

  decode_layout :
      decode_block (block_layout b) opt
      ≡ ok (record b { transactions = map canonical b.transactions })
  unfolding decode_block
  decode_layout =
      let hdr =
        sym (ap decode_header (encode_header-layout b.header))
        ∙ decode_header-encode_header b.header w.header_shape in
      let small : ltb opt.max_block_bytes (length (block_layout b)) ≡ false =
        ground (arith, ap length (encode_block-layout b), w.size_within) in
      let long : ltb (length (block_layout b)) (header_size_bytes + 4) ≡ false =
        ground (arith, layout_size) in
      let few : ltb opt.max_txs (length b.transactions) ≡ false = ground (arith, w.count_within) in
      rw (long, small, take_header, hdr, count, few, loop)

-- A block whose header fits its types, and whose transactions and sizes are within the decoder's
-- limits and unambiguous, is decoded from its encoding: the header as it was, and each transaction
-- in its canonical form.
pub decode_block-encode_block :
    (b : Block) (opt : DecodeOptions)
    → IsCarriedBlock opt b
    → decode_block (encode_block b) opt
      ≡ ok (record b { transactions = map canonical b.transactions })
decode_block-encode_block b opt w = rw (encode_block-layout b) (decode_layout opt b w)
