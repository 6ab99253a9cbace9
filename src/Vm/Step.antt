-- ===== src/Vm/Step.antt =====
-- One instruction of the loop in `VM::execute`, a definition for each group of cases of its
-- `switch`. The state's `pc` is already behind the instruction's byte, and its gas is paid.
-- A trap, a revert and the end of the gas clear the pending writes and the events.
pub mod Memory
pub mod Storage
pub mod Call
use randioum.Base.{
  ℕ, ◌+◌, ◌-◌, ◌*◌, ◌/◌, ◌%◌, ◌^◌, ◌≤◌, List, [], ◌∷◌, ltb, leb, ◌==◌, if◌then◌else◌, Bool, length,
  take, drop, Option, none, some,
}
use randioum.Codec.Bytes.{read_u32_le, read_u64_le}
use randioum.Vm.Types.{
  ValidationLimits, Status, Op, VmState, Fault, code_read, Outcome, running, halted,
}

unfoldable pub checked_add_u64 : ℕ → ℕ → Option ℕ
checked_add_u64 a b = let out = (a + b) % 2 ^ 64 in if leb a out then some out else none

unfoldable pub checked_sub_u64 : ℕ → ℕ → Option ℕ
checked_sub_u64 a b = if ltb a b then none else some (a - b)

-- The product is taken in 128 bits, which two 64-bit factors cannot leave.
unfoldable pub checked_mul_u64 : ℕ → ℕ → Option ℕ
checked_mul_u64 a b = let p = a * b in if ltb (2 ^ 64 - 1) p then none else some p

-- `GasMeter::consume`: the gas used afterwards.
unfoldable pub consume : ℕ → ℕ → ℕ → Option ℕ
consume limit used g =
    let next = (used + g) % 2 ^ 64 in
    if ltb next used then none else if ltb limit next then none else some next

unfoldable pub op_gas : Op → ℕ
op_gas Op.stop = 0
op_gas Op.revert = 0
op_gas Op.push_u64 = 1
op_gas Op.push_bytes32 = 1
op_gas Op.pop = 1
op_gas Op.dup = 1
op_gas Op.swap = 1
op_gas Op.add = 2
op_gas Op.sub = 2
op_gas Op.mul = 2
op_gas Op.div = 2
op_gas Op.mod_op = 2
op_gas Op.eq = 2
op_gas Op.lt = 2
op_gas Op.gt = 2
op_gas Op.jmp = 3
op_gas Op.jz = 3
op_gas Op.mload = 3
op_gas Op.mstore = 3
op_gas Op.sha256_mem = 50
op_gas Op.sload = 50
op_gas Op.sstore = 200
op_gas Op.emit = 20
op_gas Op.call = 40

-- `res.status = ...; pending_writes.clear(); events.clear();` and out of the loop.
abbrev pub abort : Status → VmState → Outcome
abort status s = halted status (record s { pending_writes = []; events = [] })

abbrev pub trap : VmState → Outcome
trap = abort Status.trap

-- `push_u64`, with the trap that every caller makes of its failure.
unfoldable pub push : ValidationLimits → ℕ → VmState → Outcome
push limits v s =
    if leb limits.max_stack_items (length s.stack)
    then trap s
    else running (record s { stack = v ∷ s.stack })

-- PUSH_U64
unfoldable pub exec_push_u64 : ValidationLimits → List ℕ → VmState → Outcome
exec_push_u64 limits code s =
    if ltb (length code) (s.pc + 8)
    then Outcome.fault code_read
    else push limits (read_u64_le code s.pc) (record s { pc = s.pc + 8 })

-- PUSH_BYTES32: the room for four words is tested before the first is pushed.
unfoldable pub exec_push_bytes32 : ValidationLimits → List ℕ → VmState → Outcome
exec_push_bytes32 limits code s =
    if ltb limits.max_stack_items (length s.stack + 4)
    then trap s
    else if ltb (length code) (s.pc + 32)
    then Outcome.fault code_read
    else (let buf = take 32 (drop s.pc code) in
        running (record s {
          pc = s.pc + 32;
          stack =
              read_u64_le buf 24
              ∷ read_u64_le buf 16
              ∷ read_u64_le buf 8
              ∷ read_u64_le buf 0
              ∷ s.stack;
        }))

abbrev pub top : List ℕ → Option (ℕ × List ℕ)
top [] = none
top (v ∷ rest) = some (v, rest)

abbrev pub top_two : List ℕ → Option (ℕ × ℕ × List ℕ)
top_two [] = none
top_two (b ∷ []) = none
top_two (b ∷ a ∷ rest) = some (b, a, rest)

-- POP
unfoldable pub exec_pop : VmState → Outcome
exec_pop s = elim (top s.stack) [
  | none ↦ trap s
  | some (v, rest) ↦ running (record s { stack = rest })
]

-- DUP
unfoldable pub exec_dup : ValidationLimits → VmState → Outcome
exec_dup limits s = elim (top s.stack) [ none ↦ trap s | some (v, rest) ↦ push limits v s ]

-- SWAP
unfoldable pub exec_swap : VmState → Outcome
exec_swap s = elim (top_two s.stack) [
  | none ↦ trap s
  | some (b, a, rest) ↦ running (record s { stack = a ∷ b ∷ rest })
]

-- What ADD, SUB, MUL, DIV, MOD, EQ, LT and GT make of the second word `a` and the top word `b`.
unfoldable pub binary_value : Op → ℕ → ℕ → Option ℕ
binary_value Op.add a b = checked_add_u64 a b
binary_value Op.sub a b = checked_sub_u64 a b
binary_value Op.mul a b = checked_mul_u64 a b
binary_value Op.div a b = if b == 0 then none else some (a / b)
binary_value Op.mod_op a b = if b == 0 then none else some (a % b)
binary_value Op.eq a b = some (if a == b then 1 else 0)
binary_value Op.lt a b = some (if ltb a b then 1 else 0)
binary_value Op.gt a b = some (if ltb b a then 1 else 0)
binary_value _ a b = none

unfoldable pub exec_binary : Op → ValidationLimits → VmState → Outcome
exec_binary op limits s = elim (top_two s.stack) [
  | none ↦ trap s
  | some (b, a, rest) ↦ elim (binary_value op a b) [
    | none ↦ trap s
    | some out ↦ push limits out (record s { stack = rest })
  ]
]

-- JMP
unfoldable pub exec_jmp : List ℕ → VmState → Outcome
exec_jmp code s =
    if ltb (length code) (s.pc + 4)
    then Outcome.fault code_read
    else running (record s { pc = read_u32_le code s.pc })

-- JZ
unfoldable pub exec_jz : List ℕ → VmState → Outcome
exec_jz code s =
    if ltb (length code) (s.pc + 4) then Outcome.fault code_read else elim (top s.stack) [
      | none ↦ trap s
      | some (v, rest) ↦
          running
            (record s { pc = if v == 0 then read_u32_le code s.pc else s.pc + 4; stack = rest })
    ]
