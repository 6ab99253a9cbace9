-- ===== src/Vm/Step/Call.antt =====
-- CALL. The nested machine is a parameter, from a callee's bytecode and context to what its
-- execution gives; src/vm.cpp makes a second `VM` with the same options, host and input.
use randioum.Base.{
  ℕ, ◌+◌, ◌-◌, ◌%◌, ◌^◌, List, ◌++◌, ltb, if◌then◌else◌, length, take, drop, Option, none, some,
}
use randioum.Vm.Types.{
  Bytecode, ValidationLimits, Status, VmState, VmResult, Host, ExecutionContext, code_read, Outcome,
  running, Execution,
}
use randioum.Vm.Bytecode.{decode_bytecode}
use randioum.Vm.Step.{abort, trap, push, top}

-- `get_code` and `decode_bytecode` on what it gives.
unfoldable pub callee_code : (List ℕ → Option (List ℕ)) → List ℕ → Option Bytecode
callee_code get callee = elim (get callee) [ none ↦ none | some bytes ↦ decode_bytecode bytes ]

-- The callee's writes and events join the caller's only if it ended well.
abbrev pub merge_effects : VmResult → Outcome → Outcome
merge_effects r (running s) =
    running
      (record s { pending_writes = s.pending_writes ++ r.writes; events = s.events ++ r.events })
merge_effects r o = o

abbrev pub push_result : ValidationLimits → VmResult → Status → VmState → Outcome
push_result limits r Status.ok s = merge_effects r (push limits 1 s)
push_result limits r _ s = push limits 0 s

-- What follows the nested execution: its gas is added, and 1 or 0 is pushed.
unfoldable pub after_call : ValidationLimits → ExecutionContext → VmResult → VmState → Outcome
after_call limits ctx r s =
    let next_used = (s.gas_used + r.gas_used) % 2 ^ 64 in
    if ltb next_used s.gas_used
    then abort Status.out_of_gas s
    else if ltb ctx.gas_limit next_used
    then abort Status.out_of_gas (record s { gas_used = next_used })
    else push_result limits r r.status (record s { gas_used = next_used })

unfoldable pub after_nested : ValidationLimits → ExecutionContext → VmState → Execution → Outcome
after_nested limits ctx s (Execution.finished r) = after_call limits ctx r s
after_nested limits ctx s (Execution.fault x) = Outcome.fault x
after_nested limits ctx s Execution.stuck = Outcome.stuck

-- `ExecutionContext cctx`
abbrev pub callee_context : ExecutionContext → List ℕ → ℕ → ExecutionContext
callee_context ctx callee gas = record {
  caller = ctx.self;
  self = callee;
  value = 0;
  gas_limit = gas;
  depth = ctx.depth + 1;
}

-- From the callee's bytecode on, if it has any; the state is that behind the popped gas.
unfoldable pub call_bytecode :
    ValidationLimits
    → ExecutionContext
    → (Bytecode → ExecutionContext → Execution)
    → List ℕ
    → ℕ
    → VmState
    → Option Bytecode
    → Outcome
call_bytecode limits ctx nested callee gas s none = trap s
call_bytecode limits ctx nested callee gas s (some bc) =
    after_nested limits ctx s (nested bc (callee_context ctx callee gas))

-- From the popped gas on.
unfoldable pub call_with_gas :
    ValidationLimits
    → List ℕ
    → ExecutionContext
    → (List ℕ → Option (List ℕ))
    → (Bytecode → ExecutionContext → Execution)
    → VmState
    → Option (ℕ × List ℕ)
    → Outcome
call_with_gas limits code ctx get nested s none = trap s
call_with_gas limits code ctx get nested s (some (gas_for_call, rest)) =
    if ltb ((ctx.gas_limit + 2 ^ 64 - s.gas_used) % 2 ^ 64) gas_for_call
    then abort Status.out_of_gas s
    else (let callee = take 32 (drop s.pc code) in
        call_bytecode limits ctx nested callee gas_for_call
          (record s { pc = s.pc + 32; stack = rest }) (callee_code get callee))

-- CALL
unfoldable pub exec_call :
    ValidationLimits
    → List ℕ
    → ExecutionContext
    → Host
    → (Bytecode → ExecutionContext → Execution)
    → VmState
    → Outcome
exec_call limits code ctx host nested s = elim host.get_code [
  | none ↦ trap s
  | some get ↦
      if ltb (length code) (s.pc + 32)
      then Outcome.fault code_read
      else call_with_gas limits code ctx get nested s (top s.stack)
]
