-- ===== src/Vm/Bytecode.antt =====
-- The byte form of bytecode: `VM::decode_bytecode` and `VM::encode_bytecode`.
use randioum.Base.{
  ℕ, ◌+◌, ◌%◌, ◌^◌, List, [], ◌++◌, not, ltb, ◌==◌, if◌then◌else◌, length, drop, Option, none, some,
}
use randioum.Codec.Bytes.{read_u32_le, append_u32_le}
use randioum.Vm.Types.{Bytecode}

unfoldable pub decode_bytecode : List ℕ → Option Bytecode
decode_bytecode bytes =
    if ltb (length bytes) 8
    then none
    else if not (length bytes == 8 + read_u32_le bytes 4)
    then none
    else some (record { version = read_u32_le bytes 0; code = drop 8 bytes })

unfoldable pub encode_bytecode : Bytecode → List ℕ
encode_bytecode bc =
    append_u32_le (append_u32_le [] bc.version) (length bc.code % 2 ^ 32) ++ bc.code
