-- ===== src/Codec/Header/Canonical.antt =====
-- `encode_header` after `decode_header`.
use randioum.Base.{
  ℕ, ◌+◌, ◌≤◌, ◌≡◌, refl, ap, ◌∙◌, sym, List, [], ◌∷◌, ◌++◌, All, length, length-drop, take-drop,
  ◌==◌, take, drop, Bool-cases, inl, inr, arith,
}
use randioum.Result.{ok, ok-injective}
use randioum.Codec.Bytes.{IsByte, read_u32_le, read_u64_le}
use randioum.Codec.Bytes.Laws.{le_bytes}
use randioum.Codec.Bytes.Inverse.{le_bytes-read_u32_le, le_bytes-read_u64_le, drop-drop}
use randioum.Codec.Header.{BlockHeader, encode_header, decode_header, header_size_bytes}
use randioum.Codec.Header.RoundTrip.{header_layout, encode_header-layout}

abbrev read_header : List ℕ → BlockHeader
read_header bytes = record {
  version = read_u32_le bytes 0;
  height = read_u64_le bytes 4;
  prev_block = take 32 (drop 12 bytes);
  merkle_root = take 32 (drop 44 bytes);
  timestamp_unix_seconds = read_u64_le bytes 76;
  nonce = read_u64_le bytes 84;
}

decode_header_inv :
    (bytes : List ℕ) (h : BlockHeader)
    → decode_header bytes ≡ ok h
    → (length bytes ≡ header_size_bytes) × (read_header bytes ≡ h)
unfolding decode_header
decode_header_inv bytes h e = elim (Bool-cases (length bytes == header_size_bytes)) [
  | inl same ↦ (ground arith, ok-injective (rw same at e))
  | inr other ↦ cc (rw other at e)
]

drop_end : (bytes : List ℕ) (n : ℕ) → length bytes ≤ n → drop n bytes ≡ []
drop_end bytes n h = no_items (drop n bytes) (omega (arith, length-drop n bytes))
  where
    no_items : (xs : List ℕ) → length xs ≡ 0 → xs ≡ []
    no_items [] e = refl
    no_items (x ∷ xs) e = absurd (omega arith)

module _ (bytes : List ℕ) (all : All IsByte bytes) (size : length bytes ≡ header_size_bytes) where
  last_fields :
      le_bytes 8 (read_u64_le bytes 76) ++ le_bytes 8 (read_u64_le bytes 84) ≡ drop 76 bytes
  last_fields =
      ap (λ t. le_bytes 8 (read_u64_le bytes 76) ++ t)
        (ap (λ t. le_bytes 8 (read_u64_le bytes 84) ++ t) (sym (drop_end bytes 92 (omega arith)))
          ∙ le_bytes-read_u64_le bytes 84 (omega arith) all)
      ∙ le_bytes-read_u64_le bytes 76 (omega arith) all

  hash_at : (n : ℕ) → take 32 (drop n bytes) ++ drop (n + 32) bytes ≡ drop n bytes
  hash_at n =
      ap (λ t. take 32 (drop n bytes) ++ t) (sym (drop-drop 32 n bytes))
      ∙ take-drop 32 (drop n bytes)

  rebuild_header : header_layout (read_header bytes) ≡ bytes
  rebuild_header =
      let front = λ (t : List ℕ).
        le_bytes 4 (read_u32_le bytes 0) ++ (le_bytes 8 (read_u64_le bytes 4) ++ t) in
      ap (λ t. front (take 32 (drop 12 bytes) ++ (take 32 (drop 44 bytes) ++ t))) last_fields
      ∙ ap (λ t. front (take 32 (drop 12 bytes) ++ t)) (hash_at 44)
      ∙ ap front (hash_at 12)
      ∙ ap (λ t. le_bytes 4 (read_u32_le bytes 0) ++ t)
          (le_bytes-read_u64_le bytes 4 (omega arith) all)
      ∙ le_bytes-read_u32_le bytes 0 (omega arith) all

-- A byte string that is decoded to a header is that header's encoding.
pub encode_header-decode_header :
    (bytes : List ℕ) (h : BlockHeader)
    → All IsByte bytes
    → decode_header bytes ≡ ok h
    → encode_header h ≡ bytes
encode_header-decode_header bytes h all e =
    let (size, same) = decode_header_inv bytes h e in
    ap encode_header (sym same)
    ∙ encode_header-layout (read_header bytes)
    ∙ rebuild_header bytes all size
