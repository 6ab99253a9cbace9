-- ===== src/Vm/Safety/Ops.antt =====
-- Every instruction of validated code, calls included, keeps the program counter at an instruction.
use randioum.Base.{
  ℕ, ◌+◌, ◌-◌, ◌%◌, ◌^◌, ◌≤◌, ◌≡◌, refl, sym, subst, List, true, ltb, length, take, drop, Option,
  none, some, if-elim, Option-cases, inl, inr, arith,
}
use randioum.Codec.Bytes.{read_u32_le}
use randioum.Vm.Types.{
  Bytecode, Status, Op, VmState, VmResult, Outcome, running, halted, Execution, finished, code_read,
  memory_access,
}
use randioum.Vm.Validate.{operand_size, contains}
use randioum.Vm.Step.{top}
use randioum.Vm.Step.Call.{
  merge_effects, push_result, after_call, after_nested, callee_context, call_bytecode,
  call_with_gas, exec_call,
}
use randioum.Vm.Execute.{Machine, exec_op}
use randioum.Vm.Safety.{IsBoundary, IsInst}
use randioum.Vm.Safety.Steps.{
  IsAt, Stays, push-Stays, exec_push_u64-Stays, exec_push_bytes32-Stays, exec_pop-Stays,
  exec_dup-Stays, exec_swap-Stays, exec_binary-Stays, exec_jmp-Stays, exec_jz-Stays,
  exec_mload-Stays, exec_mstore-Stays, exec_sha256_mem-Stays, exec_sload-Stays, exec_sstore-Stays,
  exec_emit-Stays,
}

-- An execution ends, with a result or with an access outside of the memory.
abbrev pub Ends : Execution → Type 0
Ends (finished r) = Unit {0}
Ends (Execution.fault code_read) = ⊥
Ends (Execution.fault memory_access) = Unit {0}
Ends Execution.stuck = ⊥

merge-Stays :
    (code inst : List ℕ) (n : ℕ) (r : VmResult) (o : Outcome)
    → Stays code inst n o
    → Stays code inst n (merge_effects r o)
merge-Stays code inst n r (running s) k = k
merge-Stays code inst n r (halted status s) k = k
merge-Stays code inst n r (Outcome.fault x) k = k
merge-Stays code inst n r Outcome.stuck k = k

module _ (m : Machine) (inst : List ℕ) (n : ℕ) where
  abbrev pub Good : Outcome → Type 0
  Good = Stays m.code inst n

  push_result-Stays :
      (r : VmResult) (status : Status) (s : VmState)
      → IsAt m.code inst n s.pc s
      → Good (push_result m.limits r status s)
  push_result-Stays r Status.ok s b =
      merge-Stays m.code inst n r _ (push-Stays m.code inst n m.limits 1 s b)
  push_result-Stays r Status.revert s b = push-Stays m.code inst n m.limits 0 s b
  push_result-Stays r Status.out_of_gas s b = push-Stays m.code inst n m.limits 0 s b
  push_result-Stays r Status.invalid_bytecode s b = push-Stays m.code inst n m.limits 0 s b
  push_result-Stays r Status.trap s b = push-Stays m.code inst n m.limits 0 s b

  after_nested-Stays :
      (s : VmState) (e : Execution)
      → Ends e
      → IsAt m.code inst n s.pc s
      → Good (after_nested m.limits m.ctx s e)
  unfolding after_nested after_call
  after_nested-Stays s (finished r) ends b =
      if-elim Good (ltb ((s.gas_used + r.gas_used) % 2 ^ 64) s.gas_used) (λ _. tt)
        (λ _.
          if-elim Good (ltb m.ctx.gas_limit ((s.gas_used + r.gas_used) % 2 ^ 64)) (λ _. tt)
            (λ _. push_result-Stays r r.status _ b))
  after_nested-Stays s (Execution.fault code_read) ends b = ends
  after_nested-Stays s (Execution.fault memory_access) ends b = tt
  after_nested-Stays s Execution.stuck ends b = ends

  module _
      (nested-Ends : (bc : Bytecode) (s : ℕ) (callee : List ℕ)
        → Ends (m.nested bc (callee_context m.ctx callee s))) where
    call_bytecode-Stays :
        (callee : List ℕ) (gas : ℕ) (s : VmState) (o : Option Bytecode)
        → IsAt m.code inst n s.pc s
        → Good (call_bytecode m.limits m.ctx m.nested callee gas s o)
    unfolding call_bytecode
    call_bytecode-Stays callee gas s none b = tt
    call_bytecode-Stays callee gas s (some bc) b =
        after_nested-Stays s _ (nested-Ends bc gas callee) b

    call_with_gas-Stays :
        (get : List ℕ → Option (List ℕ)) (s : VmState) (t : Option (ℕ × List ℕ))
        → IsAt m.code inst n (s.pc + 32) s
        → Good (call_with_gas m.limits m.code m.ctx get m.nested s t)
    unfolding call_with_gas
    call_with_gas-Stays get s none b = tt
    call_with_gas-Stays get s (some (gas, rest)) b =
        if-elim Good (ltb ((m.ctx.gas_limit + 2 ^ 64 - s.gas_used) % 2 ^ 64) gas) (λ _. tt)
          (λ _. call_bytecode-Stays (take 32 (drop s.pc m.code)) gas _ _ b)

    exec_call-Stays :
        (s : VmState)
        → s.pc + 32 ≤ length m.code
        → IsAt m.code inst n (s.pc + 32) s
        → Good (exec_call m.limits m.code m.ctx m.host m.nested s)
    unfolding exec_call
    exec_call-Stays s h b = elim (Option-cases m.host.get_code) [
      | inl e ↦ rw (e, exec_call) tt
      | inr (get, e) ↦
          rw (e, exec_call)
            (if-elim Good (ltb (length m.code) (s.pc + 32)) (λ out. absurd (ground arith))
              (λ _. call_with_gas-Stays get s (top s.stack) b))
    ]

    -- An instruction without an operand is followed by the next byte.
    plain :
        (p : ℕ) (s : VmState)
        → s.pc ≡ p + 1
        → s.steps ≡ n
        → IsBoundary m.code inst (p + 1 + 0)
        → IsAt m.code inst n s.pc s
    plain p s e c b = (subst (IsBoundary m.code inst) (omega arith) b, c)

    behind :
        (p k : ℕ) (s : VmState)
        → s.pc ≡ p + 1
        → s.steps ≡ n
        → IsBoundary m.code inst (p + 1 + k)
        → IsAt m.code inst n (s.pc + k) s
    behind p k s e c b = (subst (IsBoundary m.code inst) (omega arith) b, c)

    goal_of :
        (p : ℕ) (s : VmState)
        → s.pc ≡ p + 1
        → contains inst (read_u32_le m.code (p + 1)) ≡ true
        → contains inst (read_u32_le m.code s.pc) ≡ true
    goal_of p s e h = subst (λ q. contains inst (read_u32_le m.code q) ≡ true) (sym e) h

    pub exec_op-Stays :
        (p : ℕ) (op : Op) (s : VmState)
        → IsInst m.code inst p op
        → s.pc ≡ p + 1
        → s.steps ≡ n
        → Good (exec_op m op s)
    unfolding exec_op operand_size
    exec_op-Stays p Op.stop s i e c = tt
    exec_op-Stays p Op.revert s i e c = tt
    exec_op-Stays p Op.push_u64 s i e c =
        exec_push_u64-Stays m.code inst n m.limits s (omega (arith, i.fits))
          (behind p 8 s e c i.next)
    exec_op-Stays p Op.push_bytes32 s i e c =
        exec_push_bytes32-Stays m.code inst n m.limits s (omega (arith, i.fits))
          (behind p 32 s e c i.next)
    exec_op-Stays p Op.pop s i e c = exec_pop-Stays m.code inst n s (plain p s e c i.next)
    exec_op-Stays p Op.dup s i e c = exec_dup-Stays m.code inst n m.limits s (plain p s e c i.next)
    exec_op-Stays p Op.swap s i e c = exec_swap-Stays m.code inst n s (plain p s e c i.next)
    exec_op-Stays p Op.add s i e c =
        exec_binary-Stays m.code inst n Op.add m.limits s (plain p s e c i.next)
    exec_op-Stays p Op.sub s i e c =
        exec_binary-Stays m.code inst n Op.sub m.limits s (plain p s e c i.next)
    exec_op-Stays p Op.mul s i e c =
        exec_binary-Stays m.code inst n Op.mul m.limits s (plain p s e c i.next)
    exec_op-Stays p Op.div s i e c =
        exec_binary-Stays m.code inst n Op.div m.limits s (plain p s e c i.next)
    exec_op-Stays p Op.mod_op s i e c =
        exec_binary-Stays m.code inst n Op.mod_op m.limits s (plain p s e c i.next)
    exec_op-Stays p Op.eq s i e c =
        exec_binary-Stays m.code inst n Op.eq m.limits s (plain p s e c i.next)
    exec_op-Stays p Op.lt s i e c =
        exec_binary-Stays m.code inst n Op.lt m.limits s (plain p s e c i.next)
    exec_op-Stays p Op.gt s i e c =
        exec_binary-Stays m.code inst n Op.gt m.limits s (plain p s e c i.next)
    exec_op-Stays p Op.jmp s i e c =
        exec_jmp-Stays m.code inst n s (omega (arith, i.fits)) (goal_of p s e (i.target refl)) c
    exec_op-Stays p Op.jz s i e c =
        exec_jz-Stays m.code inst n s (omega (arith, i.fits)) (goal_of p s e (i.target refl))
          (behind p 4 s e c i.next)
    exec_op-Stays p Op.mload s i e c =
        exec_mload-Stays m.code inst n m.limits s (plain p s e c i.next)
    exec_op-Stays p Op.mstore s i e c = exec_mstore-Stays m.code inst n s (plain p s e c i.next)
    exec_op-Stays p Op.sha256_mem s i e c =
        exec_sha256_mem-Stays m.code inst n m.sha256 s (plain p s e c i.next)
    exec_op-Stays p Op.sload s i e c =
        exec_sload-Stays m.code inst n m.limits m.ctx m.host s (plain p s e c i.next)
    exec_op-Stays p Op.sstore s i e c =
        exec_sstore-Stays m.code inst n m.ctx m.host s (plain p s e c i.next)
    exec_op-Stays p Op.emit s i e c = exec_emit-Stays m.code inst n m.ctx s (plain p s e c i.next)
    exec_op-Stays p Op.call s i e c =
        exec_call-Stays s (omega (arith, i.fits)) (behind p 32 s e c i.next)
