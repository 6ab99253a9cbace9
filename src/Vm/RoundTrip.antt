-- ===== src/Vm/RoundTrip.antt =====
-- `decode_bytecode` and `encode_bytecode` undo one another.
use randioum.Base.{ℕ, ◌%◌, ◌^◌, ◌≡◌, refl, List, ◌++◌, append_assoc, length, some, arith}
use randioum.Codec.Bytes.{IsU32}
use randioum.Codec.Bytes.Laws.{le_bytes, append_u32_le_lem, read_u32_le-at}
use randioum.Vm.Types.{Bytecode}
use randioum.Vm.Bytecode.{decode_bytecode, encode_bytecode}

abbrev bytecode_layout : Bytecode → List ℕ
bytecode_layout bc = le_bytes 4 bc.version ++ (le_bytes 4 (length bc.code % 2 ^ 32) ++ bc.code)

encode_bytecode-layout : (bc : Bytecode) → encode_bytecode bc ≡ bytecode_layout bc
unfolding encode_bytecode
encode_bytecode-layout bc = simp (append_u32_le_lem, append_assoc)

decode_layout :
    (bc : Bytecode)
    → IsU32 bc.version
    → IsU32 (length bc.code)
    → decode_bytecode (bytecode_layout bc) ≡ some bc
unfolding decode_bytecode
decode_layout bc v c = ground (
  arith,
  read_u32_le-at (bytecode_layout bc) 0 bc.version _ refl,
  read_u32_le-at (bytecode_layout bc) 4 (length bc.code % 2 ^ 32) _ refl,
)

-- Bytecode whose version and size fit 32 bits is decoded from its encoding.
pub decode_bytecode-encode_bytecode :
    (bc : Bytecode)
    → IsU32 bc.version
    → IsU32 (length bc.code)
    → decode_bytecode (encode_bytecode bc) ≡ some bc
decode_bytecode-encode_bytecode bc v c = rw (encode_bytecode-layout bc) (decode_layout bc v c)
