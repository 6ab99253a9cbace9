-- ===== src/Vm/Safety/Loop.antt =====
-- The loop and whole executions of validated code: no byte is read outside of the code, and the
-- fuel of the model is enough.
use randioum.Base.{
  ℕ, zero, suc, ◌+◌, ◌≤◌, ◌<◌, ◌≡◌, refl, List, true, ltb, length, if-elim, Bool-cases,
  Option-cases, inl, inr, ltb→lt, arith,
}
use randioum.Vm.Types.{
  Bytecode, ValidationLimits, Status, Op, VmState, Host, ExecutionContext, Outcome, running, halted,
  code_read, memory_access,
}
use randioum.Vm.Validate.{contains, validate_offsets}
use randioum.Vm.Step.{consume, op_gas}
use randioum.Vm.Step.Call.{callee_context}
use randioum.Vm.Execute.{
  Machine, machine, exec_known, round, run, run_fuel, initial, finish, execute,
}
use randioum.Vm.Safety.{IsBoundary, IsInst, IsValidated, validate_offsets-IsValidated}
use randioum.Vm.Safety.Steps.{Stays}
use randioum.Vm.Safety.Ops.{Ends, exec_op-Stays}

-- The loop has ended, and not for want of fuel or by a read outside of the code.
abbrev Left : Outcome → Type 0
Left (running s) = ⊥
Left (halted status s) = Unit {0}
Left (Outcome.fault code_read) = ⊥
Left (Outcome.fault memory_access) = Unit {0}
Left Outcome.stuck = ⊥

module _ (m : Machine) (inst : List ℕ) (valid : IsValidated m.code inst)
    (nested-Ends : (bc : Bytecode) (gas : ℕ) (callee : List ℕ)
      → Ends (m.nested bc (callee_context m.ctx callee gas))) where
  exec_known-Stays :
      (op : Op) (s : VmState)
      → IsInst m.code inst s.pc op
      → Stays m.code inst s.steps (exec_known m op s)
  unfolding exec_known
  exec_known-Stays op s i = elim (Option-cases (consume m.ctx.gas_limit s.gas_used (op_gas op))) [
    | inl e ↦ rw (e, exec_known) tt
    | inr (u, e) ↦
        rw (e, exec_known) (exec_op-Stays m inst s.steps nested-Ends s.pc op _ i refl refl)
  ]

  round-Stays :
      (s : VmState) → contains inst s.pc ≡ true → Stays m.code inst (s.steps + 1) (round m s)
  unfolding round
  round-Stays s c =
      let (op, i) = valid.insts s.pc c in
      if-elim (Stays m.code inst (s.steps + 1)) (ltb m.limits.max_steps s.steps) (λ _. tt)
        (λ _. rw (i.is_op, round) (exec_known-Stays op _ i))

  round_steps :
      (s : VmState) → (s' : VmState) → round m s ≡ running s' → s.steps ≤ m.limits.max_steps
  unfolding round
  round_steps s s' e = elim (Bool-cases (ltb m.limits.max_steps s.steps)) [
    | inl over ↦ cc (rw over at e)
    | inr within ↦ ground arith
  ]

  -- The rest of the loop, once a round has been made.
  continue :
      (fuel : ℕ) (n : ℕ) (o : Outcome)
      → Stays m.code inst n o
      → ((s' : VmState)
          → o ≡ running s'
          → IsBoundary m.code inst s'.pc
          → s'.steps ≡ n
          → Left (run fuel m s'))
      → Left (elim o [
        | running s' ↦ run fuel m s'
        | halted status s' ↦ halted status s'
        | Outcome.fault x ↦ Outcome.fault x
        | Outcome.stuck ↦ Outcome.stuck
      ])
  continue fuel n (running s) k ih = ih s refl k.0 k.1
  continue fuel n (halted status s) k ih = tt
  continue fuel n (Outcome.fault code_read) k ih = k
  continue fuel n (Outcome.fault memory_access) k ih = tt
  continue fuel n Outcome.stuck k ih = k

  run-Left :
      (fuel : ℕ) (s : VmState)
      → IsBoundary m.code inst s.pc
      → s.steps ≤ m.limits.max_steps + 1
      → m.limits.max_steps + 2 ≤ s.steps + fuel
      → Left (run fuel m s)
  unfolding run
  run-Left zero s b below fuel_left = absurd (omega arith)
  run-Left (suc fuel) s b below fuel_left = elim (Bool-cases (ltb s.pc (length m.code))) [
    | inr end ↦ rw (end, run) tt
    | inl more ↦
        rw (more, run)
          (continue fuel (s.steps + 1) (round m s) (round-Stays s (inside more))
            (λ s' e b' c. run-Left fuel s' b' (omega (arith, round_steps s s' e)) (omega arith)))
  ]
    where
      inside : ltb s.pc (length m.code) ≡ true → contains inst s.pc ≡ true
      inside more = elim b [
        | inl c ↦ c
        | inr out ↦ absurd (omega (arith, ltb→lt s.pc (length m.code) more))
      ]

finish-Ends : (o : Outcome) → Left o → Ends (finish o)
unfolding finish
finish-Ends (running s) l = absurd l
finish-Ends (halted Status.ok s) l = tt
finish-Ends (halted Status.revert s) l = tt
finish-Ends (halted Status.out_of_gas s) l = tt
finish-Ends (halted Status.invalid_bytecode s) l = tt
finish-Ends (halted Status.trap s) l = tt
finish-Ends (Outcome.fault code_read) l = l
finish-Ends (Outcome.fault memory_access) l = tt
finish-Ends Outcome.stuck l = l

-- Given a level for each depth up to the one that is refused, an execution ends, on any bytecode:
-- it returns a result, or it accesses the memory outside of its bounds. It never reads outside of
-- the code, and its loop ends within `max_steps + 2` rounds.
pub execute-Ends :
    (limits : ValidationLimits) (sha256 : List ℕ → List ℕ) (host : Host) (levels : ℕ)
    (bc : Bytecode) (ctx : ExecutionContext)
    → 0 < levels
    → limits.max_call_depth + 2 ≤ ctx.depth + levels
    → Ends (execute levels limits sha256 host bc ctx)
unfolding execute
execute-Ends limits sha256 host zero bc ctx some_level enough = absurd (omega arith)
execute-Ends limits sha256 host (suc levels) bc ctx some_level enough =
    elim (Option-cases (validate_offsets limits bc)) [
      | inl e ↦ rw (e, execute) tt
      | inr (inst, e) ↦
          let valid = validate_offsets-IsValidated limits bc inst e in
          rw (e, execute)
            (if-elim Ends (ltb limits.max_call_depth ctx.depth) (λ _. tt)
              (λ shallow. finish-Ends _ (
                run-Left (machine limits sha256 host bc ctx (execute levels limits sha256 host))
                  inst valid
                  (λ bc' gas callee.
                    execute-Ends limits sha256 host levels bc' (callee_context ctx callee gas)
                      (ground arith) (omega arith))
                  (run_fuel limits) (initial limits) valid.entry (omega arith) (omega arith))))
    ]
