-- ===== src/Vm/Validate.antt =====
-- `VM::validate_` of src/vm.cpp: one pass over the code collects the offsets of the instructions,
-- a second one checks the targets of the jumps.
use randioum.Base.{
  ℕ, zero, suc, ◌+◌, List, [], ◌∷◌, not, ltb, leb, ◌==◌, ◌||◌, Bool, true, false, if◌then◌else◌,
  length, Option, none, some,
}
use mathlib.Core.Option
use randioum.Codec.Bytes.{byte_at, read_u32_le}
use randioum.Vm.Types.{Bytecode, ValidationLimits, Op}

-- The values of `enum class Op`; a byte that is none of them is `none`.
unfoldable pub op_of : ℕ → Option Op
op_of b =
    if b == 0x00
    then some Op.stop
    else if b == 0x01
    then some Op.revert
    else if b == 0x10
    then some Op.push_u64
    else if b == 0x11
    then some Op.push_bytes32
    else if b == 0x12
    then some Op.pop
    else if b == 0x13
    then some Op.dup
    else if b == 0x14
    then some Op.swap
    else if b == 0x20
    then some Op.add
    else if b == 0x21
    then some Op.sub
    else if b == 0x22
    then some Op.mul
    else if b == 0x23
    then some Op.div
    else if b == 0x24
    then some Op.mod_op
    else if b == 0x25
    then some Op.eq
    else if b == 0x26
    then some Op.lt
    else if b == 0x27
    then some Op.gt
    else if b == 0x30
    then some Op.jmp
    else if b == 0x31
    then some Op.jz
    else if b == 0x40
    then some Op.mload
    else if b == 0x41
    then some Op.mstore
    else if b == 0x42
    then some Op.sha256_mem
    else if b == 0x50
    then some Op.sload
    else if b == 0x51
    then some Op.sstore
    else if b == 0x60
    then some Op.emit
    else if b == 0x70
    then some Op.call
    else none

-- The bytes behind an instruction that belong to it.
unfoldable pub operand_size : Op → ℕ
operand_size Op.push_u64 = 8
operand_size Op.push_bytes32 = 32
operand_size Op.jmp = 4
operand_size Op.jz = 4
operand_size Op.call = 32
operand_size _ = 0

abbrev pub is_jump : Op → Bool
is_jump Op.jmp = true
is_jump Op.jz = true
is_jump _ = false

unfoldable pub op_at : List ℕ → ℕ → Option Op
op_at code pc = op_of (byte_at code pc)

-- The first pass, with fuel: the offsets from `pc` on, or `none` for a byte that is no instruction
-- or an operand that is cut off.
unfoldable pub inst_offsets : ℕ → List ℕ → ℕ → Option (List ℕ)
inst_offsets zero code pc = none
inst_offsets (suc fuel) code pc = elim (ltb pc (length code)) [
  | false ↦ some []
  | true ↦ elim (op_at code pc) [
    | none ↦ none
    | some op ↦ elim (ltb (length code) (pc + 1 + operand_size op)) [
      | true ↦ none
      | false ↦ Option.map (λ offs. pc ∷ offs) (inst_offsets fuel code (pc + 1 + operand_size op))
    ]
  ]
]

unfoldable pub contains : List ℕ → ℕ → Bool
contains [] p = false
contains (x ∷ xs) p = p == x || contains xs p

-- The second pass, with fuel. An unknown byte does not occur here, and would be passed over.
unfoldable pub jumps_ok : ℕ → List ℕ → List ℕ → ℕ → Bool
jumps_ok zero code inst pc = false
jumps_ok (suc fuel) code inst pc = elim (ltb pc (length code)) [
  | false ↦ true
  | true ↦ elim (op_at code pc) [
    | none ↦ jumps_ok fuel code inst (pc + 1)
    | some op ↦ elim (is_jump op) [
      | false ↦ jumps_ok fuel code inst (pc + 1 + operand_size op)
      | true ↦ elim (leb (length code) (read_u32_le code (pc + 1))) [
        | true ↦ false
        | false ↦ elim (contains inst (read_u32_le code (pc + 1))) [
          | false ↦ false
          | true ↦ jumps_ok fuel code inst (pc + 1 + operand_size op)
        ]
      ]
    ]
  ]
]

-- Each pass moves on by a byte at least, so its fuel is the size of the code and one more.
abbrev pub pass_fuel : List ℕ → ℕ
pass_fuel code = suc (length code)

-- `validate_`, with the offsets when it returns true.
unfoldable pub validate_offsets : ValidationLimits → Bytecode → Option (List ℕ)
validate_offsets limits bc =
    if not (bc.version == 1)
    then none
    else if ltb limits.max_code_bytes (length bc.code)
    then none
    else elim (inst_offsets (pass_fuel bc.code) bc.code 0) [
      | none ↦ none
      | some inst ↦ if jumps_ok (pass_fuel bc.code) bc.code inst 0 then some inst else none
    ]

unfoldable pub validate : ValidationLimits → Bytecode → Bool
validate limits bc = elim (validate_offsets limits bc) [ none ↦ false | some _ ↦ true ]
