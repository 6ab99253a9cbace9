-- ===== src/Codec/Header/RoundTrip.antt =====
-- `decode_header` and `encode_header` undo one another.
use randioum.Base.{
  ℕ, ◌≡◌, refl, ap, ◌∙◌, sym, List, [], ◌++◌, append_assoc, length, length-append, drop-append,
  take-append, take, drop, arith,
}
use randioum.Result.{ok}
use randioum.Codec.Bytes.{IsU32, IsU64}
use randioum.Codec.Bytes.Laws.{
  le_bytes, append_u32_le_lem, append_u64_le_lem, read_u32_le-at, read_u64_le-at,
}
use randioum.Codec.Bytes.Inverse.{drop-drop}
use randioum.Codec.Header.{BlockHeader, encode_header, decode_header, header_size_bytes}

pub record IsHeader (h : BlockHeader) : Type 0 where
  pub version_fits : IsU32 h.version
  pub height_fits : IsU64 h.height
  pub prev_size : length h.prev_block ≡ 32
  pub root_size : length h.merkle_root ≡ 32
  pub time_fits : IsU64 h.timestamp_unix_seconds
  pub nonce_fits : IsU64 h.nonce

abbrev pub header_tail : BlockHeader → List ℕ
header_tail h = le_bytes 8 h.timestamp_unix_seconds ++ le_bytes 8 h.nonce

abbrev pub header_layout : BlockHeader → List ℕ
header_layout h =
    le_bytes 4 h.version
    ++ (le_bytes 8 h.height ++ (h.prev_block ++ (h.merkle_root ++ header_tail h)))

pub encode_header-layout : (h : BlockHeader) → encode_header h ≡ header_layout h
unfolding encode_header
encode_header-layout h = simp (append_u32_le_lem, append_u64_le_lem, append_assoc)

module _ (h : BlockHeader) (w : IsHeader h) where
  drop_root : drop 44 (header_layout h) ≡ h.merkle_root ++ header_tail h
  drop_root = drop-append h.prev_block _ 32 (sym w.prev_size)

  drop_time : drop 76 (header_layout h) ≡ header_tail h
  drop_time =
      sym (drop-drop 32 44 (header_layout h))
      ∙ ap (drop 32) drop_root
      ∙ drop-append h.merkle_root _ 32 (sym w.root_size)

  drop_nonce : drop 84 (header_layout h) ≡ le_bytes 8 h.nonce ++ []
  drop_nonce = sym (drop-drop 8 76 (header_layout h)) ∙ ap (drop 8) drop_time

  pub length-header_layout : length (header_layout h) ≡ header_size_bytes
  length-header_layout = omega (
    arith,
    w.prev_size,
    w.root_size,
    length-append h.prev_block (h.merkle_root ++ header_tail h),
    length-append h.merkle_root (header_tail h),
  )

  decode_layout : decode_header (header_layout h) ≡ ok h
  unfolding decode_header
  decode_layout = ground (
    arith,
    length-header_layout,
    read_u32_le-at (header_layout h) 0 h.version _ refl,
    read_u64_le-at (header_layout h) 4 h.height _ w.height_fits refl,
    take-append h.prev_block (h.merkle_root ++ header_tail h) 32 (sym w.prev_size),
    ap (take 32) drop_root,
    take-append h.merkle_root (header_tail h) 32 (sym w.root_size),
    read_u64_le-at (header_layout h) 76 h.timestamp_unix_seconds _ w.time_fits drop_time,
    read_u64_le-at (header_layout h) 84 h.nonce _ w.nonce_fits drop_nonce,
  )

-- A header whose fields fit their types is decoded from its encoding.
pub decode_header-encode_header :
    (h : BlockHeader) → IsHeader h → decode_header (encode_header h) ≡ ok h
decode_header-encode_header h w = rw (encode_header-layout h) (decode_layout h w)
