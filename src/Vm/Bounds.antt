-- ===== src/Vm/Bounds.antt =====
-- The bounds that every instruction keeps: gas, stack and memory; and that an execution which does
-- not end well has no effects.
pub mod Effects
pub mod Run
pub mod Whole
use randioum.Base.{
  ℕ, zero, suc, ◌+◌, ◌-◌, ◌%◌, ◌^◌, ◌≤◌, ◌<◌, ◌≡◌, ◌≢◌, refl, ap, sym, ◌∙◌, List, [], ◌∷◌, ◌++◌,
  true, false, ltb, leb, if◌then◌else◌, length, length-append, length-take, length-drop,
  length-replicate, take, drop, replicate, Option, none, some, Bool-cases, Option-cases, inl, inr,
  arith,
}
use randioum.Codec.Bytes.{append_u64_le, IsU64}
use randioum.Codec.Bytes.Laws.{append_u64_le_lem}
use randioum.Vm.Types.{
  Bytecode, ValidationLimits, Status, Op, VmState, VmResult, Host, ExecutionContext, Outcome,
  running, halted, Execution, finished,
}
use randioum.Vm.Validate.{op_at, validate_offsets}
use randioum.Vm.Step.{
  consume, op_gas, abort, push, trap, top, top_two, binary_value, exec_push_u64, exec_push_bytes32,
  exec_pop, exec_dup, exec_swap, exec_binary, exec_jmp, exec_jz,
}
use randioum.Vm.Step.Memory.{write_bytes, top_three, exec_mload, exec_mstore, exec_sha256_mem}
use randioum.Vm.Step.Storage.{top_hash, stored_word, exec_sload, exec_sstore, exec_emit}
use randioum.Vm.Step.Call.{callee_code, push_result, after_call, exec_call}
use randioum.Vm.Execute.{Machine, exec_op, exec_known, round, run, finish, execute}

-- The state of a running machine.
pub record IsBounded (limits : ValidationLimits) (gas_limit : ℕ) (s : VmState) : Type 0 where
  pub gas : s.gas_used ≤ gas_limit
  pub stack_size : length s.stack ≤ limits.max_stack_items
  pub mem_size : length s.mem ≡ limits.max_memory_bytes

-- The state in which the loop was left.
pub record IsClosed (gas_limit : ℕ) (status : Status) (s : VmState) : Type 0 where
  pub gas : s.gas_used ≤ gas_limit
  pub no_writes : status ≢ Status.ok → s.pending_writes ≡ []
  pub no_events : status ≢ Status.ok → s.events ≡ []

abbrev pub Keeps : ValidationLimits → ℕ → Outcome → Type 0
Keeps limits g (running s) = IsBounded limits g s
Keeps limits g (halted status s) = IsClosed g status s
Keeps limits g (Outcome.fault x) = Unit {0}
Keeps limits g Outcome.stuck = Unit {0}

pub length-top :
    (st : List ℕ) (v : ℕ) (rest : List ℕ) → top st ≡ some (v, rest) → length st ≡ suc (length rest)
length-top [] v rest e = cc
length-top (x ∷ xs) v rest e = ground arith

pub length-top_two :
    (st : List ℕ) (b a : ℕ) (rest : List ℕ)
    → top_two st ≡ some (b, a, rest)
    → length st ≡ 2 + length rest
length-top_two [] b a rest e = cc
length-top_two (x ∷ []) b a rest e = cc
length-top_two (x ∷ y ∷ xs) b a rest e = ground arith

module _ (limits : ValidationLimits) (g : ℕ) where
  pub abort-Keeps :
      (status : Status) (s : VmState) → s.gas_used ≤ g → Keeps limits g (abort status s)
  abort-Keeps status s h = record { gas = h; no_writes = λ _. refl; no_events = λ _. refl }

  pub push-Keeps : (v : ℕ) (s : VmState) → IsBounded limits g s → Keeps limits g (push limits v s)
  unfolding push
  push-Keeps v s b = elim (Bool-cases (leb limits.max_stack_items (length s.stack))) [
    | inl full ↦ rw full (abort-Keeps Status.trap s b.gas)
    | inr room ↦ rw room (ground arith)
  ]

  pub exec_push_u64-Keeps :
      (code : List ℕ) (s : VmState)
      → IsBounded limits g s
      → Keeps limits g (exec_push_u64 limits code s)
  unfolding exec_push_u64
  exec_push_u64-Keeps code s b = elim (Bool-cases (ltb (length code) (s.pc + 8))) [
    | inl out ↦ rw out tt
    | inr inside ↦ rw inside (push-Keeps _ _ (ground arith))
  ]

  pub exec_push_bytes32-Keeps :
      (code : List ℕ) (s : VmState)
      → IsBounded limits g s
      → Keeps limits g (exec_push_bytes32 limits code s)
  unfolding exec_push_bytes32
  exec_push_bytes32-Keeps code s b =
      elim (Bool-cases (ltb limits.max_stack_items (length s.stack + 4))) [
        | inl full ↦ rw full (abort-Keeps Status.trap s b.gas)
        | inr room ↦ elim (Bool-cases (ltb (length code) (s.pc + 32))) [
          | inl out ↦ rw (room, out) tt
          | inr inside ↦ rw (room, inside) (ground arith)
        ]
      ]

  pub exec_pop-Keeps : (s : VmState) → IsBounded limits g s → Keeps limits g (exec_pop s)
  unfolding exec_pop
  exec_pop-Keeps s b = elim (Option-cases (top s.stack)) [
    | inl e ↦ rw (e, exec_pop) (abort-Keeps Status.trap s b.gas)
    | inr ((v, rest), e) ↦
        rw (e, exec_pop)
          (omega (arith, b.gas, b.stack_size, b.mem_size, length-top s.stack v rest e))
  ]

  pub exec_dup-Keeps : (s : VmState) → IsBounded limits g s → Keeps limits g (exec_dup limits s)
  unfolding exec_dup
  exec_dup-Keeps s b = elim (Option-cases (top s.stack)) [
    | inl e ↦ rw (e, exec_dup) (abort-Keeps Status.trap s b.gas)
    | inr ((v, rest), e) ↦ rw (e, exec_dup) (push-Keeps v s b)
  ]

  pub exec_swap-Keeps : (s : VmState) → IsBounded limits g s → Keeps limits g (exec_swap s)
  unfolding exec_swap
  exec_swap-Keeps s b = elim (Option-cases (top_two s.stack)) [
    | inl e ↦ rw (e, exec_swap) (abort-Keeps Status.trap s b.gas)
    | inr ((x, y, rest), e) ↦
        rw (e, exec_swap)
          (omega (arith, b.gas, b.stack_size, b.mem_size, length-top_two s.stack x y rest e))
  ]

  pub exec_binary-Keeps :
      (op : Op) (s : VmState) → IsBounded limits g s → Keeps limits g (exec_binary op limits s)
  unfolding exec_binary
  exec_binary-Keeps op s b = elim (Option-cases (top_two s.stack)) [
    | inl e ↦ rw (e, exec_binary) (abort-Keeps Status.trap s b.gas)
    | inr ((x, y, rest), e) ↦ elim (Option-cases (binary_value op y x)) [
      | inl f ↦ rw (e, exec_binary) (rw (f, exec_binary) (abort-Keeps Status.trap s b.gas))
      | inr (v, f) ↦
          rw (e, exec_binary)
            (rw (f, exec_binary)
              (push-Keeps v _ (
                omega (arith, b.gas, b.stack_size, b.mem_size, length-top_two s.stack x y rest e))))
    ]
  ]

  pub exec_jmp-Keeps :
      (code : List ℕ) (s : VmState) → IsBounded limits g s → Keeps limits g (exec_jmp code s)
  unfolding exec_jmp
  exec_jmp-Keeps code s b = elim (Bool-cases (ltb (length code) (s.pc + 4))) [
    | inl out ↦ rw out tt
    | inr inside ↦ rw inside (omega (arith, b.gas, b.stack_size, b.mem_size))
  ]

  pub exec_jz-Keeps :
      (code : List ℕ) (s : VmState) → IsBounded limits g s → Keeps limits g (exec_jz code s)
  unfolding exec_jz
  exec_jz-Keeps code s b = elim (Bool-cases (ltb (length code) (s.pc + 4))) [
    | inl out ↦ rw out tt
    | inr inside ↦ elim (Option-cases (top s.stack)) [
      | inl e ↦ rw (inside, e, exec_jz) (abort-Keeps Status.trap s b.gas)
      | inr ((v, rest), e) ↦
          rw (inside, e, exec_jz)
            (omega (arith, b.gas, b.stack_size, b.mem_size, length-top s.stack v rest e))
    ]
  ]
