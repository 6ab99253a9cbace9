-- ===== src/Vm/Execute.antt =====
-- The loop of `VM::execute`, and `VM::execute`.
use randioum.Base.{
  ℕ, zero, suc, ◌+◌, List, [], true, false, ltb, if◌then◌else◌, length, replicate, none, some,
}
use randioum.Vm.Types.{
  Bytecode, ValidationLimits, Status, Op, VmState, Host, ExecutionContext, Outcome, running, halted,
  Execution, finished,
}
use randioum.Vm.Validate.{op_at, validate_offsets}
use randioum.Vm.Step.{
  consume, op_gas, abort, exec_push_u64, exec_push_bytes32, exec_pop, exec_dup, exec_swap,
  exec_binary, exec_jmp, exec_jz,
}
use randioum.Vm.Step.Memory.{exec_mload, exec_mstore, exec_sha256_mem}
use randioum.Vm.Step.Storage.{exec_sload, exec_sstore, exec_emit}
use randioum.Vm.Step.Call.{exec_call}

-- What stays the same while the loop runs.
pub record Machine : Type 0 where
  pub limits : ValidationLimits
  pub code : List ℕ
  pub ctx : ExecutionContext
  pub host : Host
  pub sha256 : List ℕ → List ℕ
  pub nested : Bytecode → ExecutionContext → Execution

-- The `switch`.
unfoldable pub exec_op : Machine → Op → VmState → Outcome
exec_op m Op.stop s = halted Status.ok s
exec_op m Op.revert s = abort Status.revert s
exec_op m Op.push_u64 s = exec_push_u64 m.limits m.code s
exec_op m Op.push_bytes32 s = exec_push_bytes32 m.limits m.code s
exec_op m Op.pop s = exec_pop s
exec_op m Op.dup s = exec_dup m.limits s
exec_op m Op.swap s = exec_swap s
exec_op m Op.add s = exec_binary Op.add m.limits s
exec_op m Op.sub s = exec_binary Op.sub m.limits s
exec_op m Op.mul s = exec_binary Op.mul m.limits s
exec_op m Op.div s = exec_binary Op.div m.limits s
exec_op m Op.mod_op s = exec_binary Op.mod_op m.limits s
exec_op m Op.eq s = exec_binary Op.eq m.limits s
exec_op m Op.lt s = exec_binary Op.lt m.limits s
exec_op m Op.gt s = exec_binary Op.gt m.limits s
exec_op m Op.jmp s = exec_jmp m.code s
exec_op m Op.jz s = exec_jz m.code s
exec_op m Op.mload s = exec_mload m.limits s
exec_op m Op.mstore s = exec_mstore s
exec_op m Op.sha256_mem s = exec_sha256_mem m.sha256 s
exec_op m Op.sload s = exec_sload m.limits m.ctx m.host s
exec_op m Op.sstore s = exec_sstore m.ctx m.host s
exec_op m Op.emit s = exec_emit m.ctx s
exec_op m Op.call s = exec_call m.limits m.code m.ctx m.host m.nested s

-- The body of the loop for an instruction: its gas is paid before it runs.
unfoldable pub exec_known : Machine → Op → VmState → Outcome
exec_known m op s = elim (consume m.ctx.gas_limit s.gas_used (op_gas op)) [
  | none ↦ abort Status.out_of_gas s
  | some used ↦ exec_op m op (record s { pc = s.pc + 1; gas_used = used })
]

-- One round of the loop. A byte that is no instruction costs no gas and does nothing.
unfoldable pub round : Machine → VmState → Outcome
round m s =
    if ltb m.limits.max_steps s.steps then abort Status.trap s else elim (op_at m.code s.pc) [
      | none ↦ elim (consume m.ctx.gas_limit s.gas_used 0) [
        | none ↦ abort Status.out_of_gas s
        | some used ↦ running (record s { pc = s.pc + 1; steps = s.steps + 1; gas_used = used })
      ]
      | some op ↦ exec_known m op (record s { steps = s.steps + 1 })
    ]

-- The loop, with fuel.
unfoldable pub run : ℕ → Machine → VmState → Outcome
run zero m s = Outcome.stuck
run (suc fuel) m s = elim (ltb s.pc (length m.code)) [
  | false ↦ halted Status.ok s
  | true ↦ elim (round m s) [
    | running s' ↦ run fuel m s'
    | halted status s' ↦ halted status s'
    | Outcome.fault x ↦ Outcome.fault x
    | Outcome.stuck ↦ Outcome.stuck
  ]
]

-- The instruction with number `max_steps + 1` traps, and one more round sees the end of the code.
abbrev pub run_fuel : ValidationLimits → ℕ
run_fuel limits = limits.max_steps + 2

abbrev pub initial : ValidationLimits → VmState
initial limits = record {
  pc = 0;
  steps = 0;
  gas_used = 0;
  stack = [];
  mem = replicate limits.max_memory_bytes 0;
  pending_writes = [];
  events = [];
}

-- The code behind `end_exec`; after a trap the effects are cleared there once more.
unfoldable pub finish : Outcome → Execution
finish (running s) = Execution.stuck
finish (halted Status.trap s) =
    finished (record { status = Status.trap; gas_used = s.gas_used; writes = []; events = [] })
finish (halted status s) = finished (record {
  status = status;
  gas_used = s.gas_used;
  writes = s.pending_writes;
  events = s.events;
})
finish (Outcome.fault x) = Execution.fault x
finish Outcome.stuck = Execution.stuck

-- A result of a run that did not begin.
abbrev pub refused : Status → Execution
refused status = finished (record { status = status; gas_used = 0; writes = []; events = [] })

abbrev pub machine :
    ValidationLimits
    → (List ℕ → List ℕ)
    → Host
    → Bytecode
    → ExecutionContext
    → (Bytecode → ExecutionContext → Execution)
    → Machine
machine limits sha256 host bc ctx nested = record {
  limits = limits;
  code = bc.code;
  ctx = ctx;
  host = host;
  sha256 = sha256;
  nested = nested;
}

-- `VM::execute`. The first argument bounds how deep the calls go; the machine itself refuses a
-- depth above `max_call_depth`.
unfoldable pub execute :
    ℕ → ValidationLimits → (List ℕ → List ℕ) → Host → Bytecode → ExecutionContext → Execution
execute zero limits sha256 host bc ctx = Execution.stuck
execute (suc levels) limits sha256 host bc ctx = elim (validate_offsets limits bc) [
  | none ↦ refused Status.invalid_bytecode
  | some inst ↦
      if ltb limits.max_call_depth ctx.depth
      then refused Status.trap
      else finish (
          run (run_fuel limits)
            (machine limits sha256 host bc ctx (execute levels limits sha256 host))
            (initial limits))
]
