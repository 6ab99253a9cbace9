-- ===== src/Codec/Tx/Canonical.antt =====
-- `encode_tx` after `decode_tx`: an accepted byte string is the encoding of what was read.
use randioum.Base.{
  ℕ, ◌+◌, ◌%◌, ◌^◌, ◌≤◌, ◌≡◌, refl, ap, ◌∙◌, sym, List, ◌++◌, All, length, length-drop, true, false,
  leb, ltb, ◌==◌, drop, Bool-cases, inl, inr, ◌⊎◌, arith,
}
use randioum.Result.{ok, ok-injective}
use randioum.Codec.Bytes.{IsByte, read_u32_le, read_u64_le}
use randioum.Codec.Bytes.Laws.{le_bytes}
use randioum.Codec.Bytes.Inverse.{le_bytes-read_u32_le, le_bytes-read_u64_le}
use randioum.Codec.Tx.{
  Transaction, DecodeOptions, has_compute, max_fee, encode_tx, decode_tx, decode_v1, decode_v2,
  finish_v2,
}
use randioum.Codec.Tx.Encoding.{encode_tx-v1, encode_tx-v2, encode_tx-compute}
use randioum.Codec.Tx.Ambiguity.{low_bytes}

-- The layout with compute fields, used for a transaction whose compute fields are both 0.
abbrev pub IsPadded : List ℕ → Transaction → Type 0
IsPadded bytes tx =
    (leb 2 tx.version ≡ true) × (has_compute tx ≡ false) × (length bytes ≡ 48 + length tx.payload)

module _ (bytes : List ℕ) (all : All IsByte bytes) where
  rebuild_v1 :
      24 ≤ length bytes
      → le_bytes 4 (read_u32_le bytes 0)
          ++ (le_bytes 8 (read_u64_le bytes 4)
              ++ (le_bytes 8 (read_u64_le bytes 12)
                  ++ (le_bytes 4 (read_u32_le bytes 20) ++ drop 24 bytes)))
        ≡ bytes
  rebuild_v1 h =
      let e20 = le_bytes-read_u32_le bytes 20 (omega arith) all in
      let e12 = le_bytes-read_u64_le bytes 12 (omega arith) all in
      let e4 = le_bytes-read_u64_le bytes 4 (omega arith) all in
      ap
        (λ t.
          le_bytes 4 (read_u32_le bytes 0)
          ++ (le_bytes 8 (read_u64_le bytes 4) ++ (le_bytes 8 (read_u64_le bytes 12) ++ t)))
        e20
      ∙ ap (λ t. le_bytes 4 (read_u32_le bytes 0) ++ (le_bytes 8 (read_u64_le bytes 4) ++ t)) e12
      ∙ ap (λ t. le_bytes 4 (read_u32_le bytes 0) ++ t) e4
      ∙ le_bytes-read_u32_le bytes 0 (omega arith) all

  rebuild_fees :
      (tail : List ℕ)
      → 28 ≤ length bytes
      → tail ≡ drop 28 bytes
      → le_bytes 4 (read_u32_le bytes 0)
          ++ (le_bytes 8 (read_u64_le bytes 4)
              ++ (le_bytes 8 (read_u64_le bytes 12) ++ (le_bytes 8 (read_u64_le bytes 20) ++ tail)))
        ≡ bytes
  rebuild_fees tail h e =
      let e20 = le_bytes-read_u64_le bytes 20 (omega arith) all in
      let e12 = le_bytes-read_u64_le bytes 12 (omega arith) all in
      let e4 = le_bytes-read_u64_le bytes 4 (omega arith) all in
      let front = λ (t : List ℕ).
        le_bytes 4 (read_u32_le bytes 0) ++ (le_bytes 8 (read_u64_le bytes 4) ++ t) in
      ap
        (λ t. front (le_bytes 8 (read_u64_le bytes 12) ++ (le_bytes 8 (read_u64_le bytes 20) ++ t)))
        e
      ∙ ap (λ t. front (le_bytes 8 (read_u64_le bytes 12) ++ t)) e20
      ∙ ap front e12
      ∙ ap (λ t. le_bytes 4 (read_u32_le bytes 0) ++ t) e4
      ∙ le_bytes-read_u32_le bytes 0 (omega arith) all

  rebuild_compute :
      48 ≤ length bytes
      → le_bytes 8 (read_u64_le bytes 28)
          ++ (le_bytes 8 (read_u64_le bytes 36)
              ++ (le_bytes 4 (read_u32_le bytes 44) ++ drop 48 bytes))
        ≡ drop 28 bytes
  rebuild_compute h =
      let e44 = le_bytes-read_u32_le bytes 44 (omega arith) all in
      let e36 = le_bytes-read_u64_le bytes 36 (omega arith) all in
      ap (λ t. le_bytes 8 (read_u64_le bytes 28) ++ (le_bytes 8 (read_u64_le bytes 36) ++ t)) e44
      ∙ ap (λ t. le_bytes 8 (read_u64_le bytes 28) ++ t) e36
      ∙ le_bytes-read_u64_le bytes 28 (omega arith) all

-- What the decoder makes of the bytes in each layout.
abbrev read_v1 : List ℕ → Transaction
read_v1 bytes = record {
  version = read_u32_le bytes 0;
  nonce = read_u64_le bytes 4;
  fee = read_u64_le bytes 12;
  max_fee_per_gas = 0;
  priority_fee_per_gas = 0;
  compute_limit = 0;
  compute_price_per_unit = 0;
  payload = drop 24 bytes;
}

abbrev read_v2 : List ℕ → ℕ → ℕ → ℕ → Transaction
read_v2 bytes off limit price = record {
  version = read_u32_le bytes 0;
  nonce = read_u64_le bytes 4;
  fee = read_u64_le bytes 12;
  max_fee_per_gas = read_u64_le bytes 12;
  priority_fee_per_gas = read_u64_le bytes 20;
  compute_limit = limit;
  compute_price_per_unit = price;
  payload = drop off bytes;
}

finish_inv :
    (opt : DecodeOptions) (bytes : List ℕ) (plen off limit price : ℕ) (tx : Transaction)
    → finish_v2 opt bytes plen off limit price ≡ ok tx
    → (off + plen ≡ length bytes) × (read_v2 bytes off limit price ≡ tx)
unfolding finish_v2
finish_inv opt bytes plen off limit price tx e =
    elim (Bool-cases (ltb opt.max_payload_bytes plen)) [
      | inl big ↦ cc (rw big at e)
      | inr fits ↦ elim (Bool-cases (off + plen == length bytes)) [
        | inl same ↦ (ground arith, ok-injective (rw (fits, same) at e))
        | inr other ↦ cc (rw (fits, other) at e)
      ]
    ]

inv_v1 :
    (bytes : List ℕ) (opt : DecodeOptions) (tx : Transaction)
    → decode_v1 opt bytes ≡ ok tx
    → (24 + read_u32_le bytes 20 ≡ length bytes) × (read_v1 bytes ≡ tx)
unfolding decode_v1
inv_v1 bytes opt tx e = elim (Bool-cases (ltb opt.max_payload_bytes (read_u32_le bytes 20))) [
  | inl big ↦ cc (rw big at e)
  | inr fits ↦ elim (Bool-cases (24 + read_u32_le bytes 20 == length bytes)) [
    | inl same ↦ (ground arith, ok-injective (rw (fits, same) at e))
    | inr other ↦ cc (rw (fits, other) at e)
  ]
]

inv_v2 :
    (bytes : List ℕ) (opt : DecodeOptions) (tx : Transaction)
    → decode_v2 opt bytes ≡ ok tx
    → ((32 + read_u32_le bytes 28 ≡ length bytes) × (read_v2 bytes 32 0 0 ≡ tx))
      ⊎ ((48 + read_u32_le bytes 44 ≡ length bytes)
          × (read_v2 bytes 48 (read_u64_le bytes 28) (read_u64_le bytes 36) ≡ tx))
unfolding decode_v2
inv_v2 bytes opt tx e = elim (Bool-cases (ltb (length bytes) 32)) [
  | inl short ↦ cc (rw short at e)
  | inr long ↦ elim (Bool-cases (32 + read_u32_le bytes 28 == length bytes)) [
    | inl plain ↦ inl (finish_inv opt bytes _ _ _ _ tx (rw (long, plain) at e))
    | inr market ↦ elim (Bool-cases (ltb (length bytes) 48)) [
      | inl short ↦ cc (rw (long, market, short) at e)
      | inr enough ↦ inr (finish_inv opt bytes _ _ _ _ tx (rw (long, market, enough) at e))
    ]
  ]
]

decode_tx-cases :
    (bytes : List ℕ) (opt : DecodeOptions) (tx : Transaction)
    → decode_tx bytes opt ≡ ok tx
    → (24 ≤ length bytes)
      × (((leb 2 (read_u32_le bytes 0) ≡ false) × (decode_v1 opt bytes ≡ ok tx))
          ⊎ ((leb 2 (read_u32_le bytes 0) ≡ true) × (decode_v2 opt bytes ≡ ok tx)))
unfolding decode_tx
decode_tx-cases bytes opt tx e = elim (Bool-cases (ltb (length bytes) 24)) [
  | inl short ↦ cc (rw short at e)
  | inr long ↦ elim (Bool-cases (leb 2 (read_u32_le bytes 0))) [
    | inl new ↦ (ground arith, inr (new, rw (long, new) at e))
    | inr old ↦ (ground arith, inl (old, rw (long, old) at e))
  ]
]

module _ (bytes : List ℕ) (all : All IsByte bytes) where
  encode-v1 :
      24 ≤ length bytes
      → leb 2 (read_u32_le bytes 0) ≡ false
      → 24 + read_u32_le bytes 20 ≡ length bytes
      → encode_tx (read_v1 bytes) ≡ bytes
  encode-v1 long old fits =
      encode_tx-v1 (read_v1 bytes) old
      ∙ ap
          (λ t.
            le_bytes 4 (read_u32_le bytes 0)
            ++ (le_bytes 8 (read_u64_le bytes 4)
                ++ (le_bytes 8 (read_u64_le bytes 12) ++ (t ++ drop 24 bytes))))
          (low_bytes _ (read_u32_le bytes 20) (omega (arith, length-drop 24 bytes)))
      ∙ rebuild_v1 bytes all long

  read_max_fee :
      (off limit price : ℕ) → max_fee (read_v2 bytes off limit price) ≡ read_u64_le bytes 12
  read_max_fee off limit price = ground arith

  encode-v2 :
      leb 2 (read_u32_le bytes 0) ≡ true
      → 32 + read_u32_le bytes 28 ≡ length bytes
      → encode_tx (read_v2 bytes 32 0 0) ≡ bytes
  encode-v2 new fits =
      encode_tx-v2 (read_v2 bytes 32 0 0) new refl
      ∙ ap
          (λ f.
            le_bytes 4 (read_u32_le bytes 0)
            ++ (le_bytes 8 (read_u64_le bytes 4)
                ++ (le_bytes 8 f
                    ++ (le_bytes 8 (read_u64_le bytes 20)
                        ++ (le_bytes 4 (length (drop 32 bytes) % 2 ^ 32) ++ drop 32 bytes)))))
          (read_max_fee 32 0 0)
      ∙ rebuild_fees bytes all _ (omega arith) (
          ap (λ t. t ++ drop 32 bytes)
            (low_bytes _ (read_u32_le bytes 28) (omega (arith, length-drop 32 bytes)))
          ∙ le_bytes-read_u32_le bytes 28 (omega arith) all)

  encode-compute :
      leb 2 (read_u32_le bytes 0) ≡ true
      → 48 + read_u32_le bytes 44 ≡ length bytes
      → has_compute (read_v2 bytes 48 (read_u64_le bytes 28) (read_u64_le bytes 36)) ≡ true
      → encode_tx (read_v2 bytes 48 (read_u64_le bytes 28) (read_u64_le bytes 36)) ≡ bytes
  encode-compute new fits market =
      encode_tx-compute (read_v2 bytes 48 (read_u64_le bytes 28) (read_u64_le bytes 36)) new market
      ∙ ap
          (λ f.
            le_bytes 4 (read_u32_le bytes 0)
            ++ (le_bytes 8 (read_u64_le bytes 4)
                ++ (le_bytes 8 f
                    ++ (le_bytes 8 (read_u64_le bytes 20)
                        ++ (le_bytes 8 (read_u64_le bytes 28)
                            ++ (le_bytes 8 (read_u64_le bytes 36)
                                ++ (le_bytes 4 (length (drop 48 bytes) % 2 ^ 32)
                                    ++ drop 48 bytes)))))))
          (read_max_fee 48 (read_u64_le bytes 28) (read_u64_le bytes 36))
      ∙ rebuild_fees bytes all _ (omega arith) (
          ap
            (λ t.
              le_bytes 8 (read_u64_le bytes 28)
              ++ (le_bytes 8 (read_u64_le bytes 36) ++ (t ++ drop 48 bytes)))
            (low_bytes _ (read_u32_le bytes 44) (omega (arith, length-drop 48 bytes)))
          ∙ rebuild_compute bytes all (omega arith))

-- A byte string that is decoded is the encoding of the transaction that was read, unless it spells
-- out compute fields that are both 0.
pub encode_tx-decode_tx :
    (bytes : List ℕ) (opt : DecodeOptions) (tx : Transaction)
    → All IsByte bytes
    → decode_tx bytes opt ≡ ok tx
    → ¬ IsPadded bytes tx
    → encode_tx tx ≡ bytes
encode_tx-decode_tx bytes opt tx all e bare = elim (decode_tx-cases bytes opt tx e).1 [
  | inl (old, d) ↦
      let (fits, same) = inv_v1 bytes opt tx d in
      ap encode_tx (sym same) ∙ encode-v1 bytes all (decode_tx-cases bytes opt tx e).0 old fits
  | inr (new, d) ↦ elim (inv_v2 bytes opt tx d) [
    | inl (fits, same) ↦ ap encode_tx (sym same) ∙ encode-v2 bytes all new fits
    | inr (fits, same) ↦ elim (Bool-cases (has_compute tx)) [
      | inl market ↦
          ap encode_tx (sym same) ∙ encode-compute bytes all new fits (ap has_compute same ∙ market)
      | inr plain ↦ absurd (
          bare (
            ap (λ (t : Transaction). leb 2 t.version) (sym same) ∙ new,
            plain,
            omega (arith, length-drop 48 bytes, ap (λ (t : Transaction). length t.payload) same),
          ))
    ]
  ]
]
