-- ===== src/Vm/Bounds/Run.antt =====
-- The bounds are kept by calls, by the loop and by a whole execution.
use randioum.Base.{
  ℕ, zero, suc, ◌+◌, ◌-◌, ◌%◌, ◌^◌, ◌≤◌, ◌≡◌, refl, List, ltb, length, take, drop, Option, none,
  some, Bool-cases, if-elim, Option-cases, inl, inr, ltb→lt, arith,
}
use randioum.Codec.Bytes.{IsU64}
use randioum.Vm.Types.{
  Bytecode, ValidationLimits, Status, Op, VmState, VmResult, ExecutionContext, Outcome, running,
  halted, Execution, finished,
}
use randioum.Vm.Validate.{op_at}
use randioum.Vm.Step.{consume, op_gas, top}
use randioum.Vm.Step.Call.{
  merge_effects, push_result, after_call, after_nested, callee_context, call_bytecode,
  call_with_gas, exec_call,
}
use randioum.Vm.Execute.{Machine, exec_op, exec_known, round, run}
use randioum.Vm.Bounds.{
  IsBounded, IsClosed, Keeps, length-top, abort-Keeps, push-Keeps, exec_push_u64-Keeps,
  exec_push_bytes32-Keeps, exec_pop-Keeps, exec_dup-Keeps, exec_swap-Keeps, exec_binary-Keeps,
  exec_jmp-Keeps, exec_jz-Keeps,
}
use randioum.Vm.Bounds.Effects.{
  exec_mload-Keeps, exec_mstore-Keeps, exec_sha256_mem-Keeps, exec_sload-Keeps, exec_sstore-Keeps,
  exec_emit-Keeps,
}

pub consume-le : (limit used g u : ℕ) → consume limit used g ≡ some u → u ≤ limit
unfolding consume
consume-le limit used g u e = ground arith

merge-Keeps :
    (limits : ValidationLimits) (g : ℕ) (r : VmResult) (o : Outcome)
    → Keeps limits g o
    → Keeps limits g (merge_effects r o)
merge-Keeps limits g r (running s) k = record {
  gas = k.gas;
  stack_size = k.stack_size;
  mem_size = k.mem_size;
}
merge-Keeps limits g r (halted status s) k = k
merge-Keeps limits g r (Outcome.fault x) k = tt
merge-Keeps limits g r Outcome.stuck k = tt

module _ (limits : ValidationLimits) (ctx : ExecutionContext) where
  push_result-Keeps :
      (r : VmResult) (status : Status) (s : VmState)
      → IsBounded limits ctx.gas_limit s
      → Keeps limits ctx.gas_limit (push_result limits r status s)
  push_result-Keeps r Status.ok s b =
      merge-Keeps limits ctx.gas_limit r _ (push-Keeps limits ctx.gas_limit 1 s b)
  push_result-Keeps r Status.revert s b = push-Keeps limits ctx.gas_limit 0 s b
  push_result-Keeps r Status.out_of_gas s b = push-Keeps limits ctx.gas_limit 0 s b
  push_result-Keeps r Status.invalid_bytecode s b = push-Keeps limits ctx.gas_limit 0 s b
  push_result-Keeps r Status.trap s b = push-Keeps limits ctx.gas_limit 0 s b

  after_call-Keeps :
      (r : VmResult) (s : VmState)
      → s.gas_used + r.gas_used ≤ ctx.gas_limit
      → IsU64 ctx.gas_limit
      → IsBounded limits ctx.gas_limit s
      → Keeps limits ctx.gas_limit (after_call limits ctx r s)
  unfolding after_call
  after_call-Keeps r s paid fits b =
      if-elim (Keeps limits ctx.gas_limit) (ltb ((s.gas_used + r.gas_used) % 2 ^ 64) s.gas_used)
        (λ _. abort-Keeps limits ctx.gas_limit Status.out_of_gas s b.gas)
        (λ _.
          if-elim (Keeps limits ctx.gas_limit)
            (ltb ctx.gas_limit ((s.gas_used + r.gas_used) % 2 ^ 64)) (λ over. absurd (ground arith))
            (λ within.
              push_result-Keeps r r.status _ (omega (arith, b.stack_size, b.mem_size, ltb→lt))))

-- What a machine relies on: its gas limit is a 64-bit number, a digest has 32 bytes, and a nested
-- execution uses no more gas than it was given.
pub record IsSound (m : Machine) : Type 0 where
  pub limit_fits : IsU64 m.ctx.gas_limit
  pub digest : (x : List ℕ) → length (m.sha256 x) ≡ 32
  pub nested_gas :
      (bc : Bytecode) (ctx : ExecutionContext) (r : VmResult)
      → IsU64 ctx.gas_limit
      → m.nested bc ctx ≡ finished r
      → r.gas_used ≤ ctx.gas_limit

module _ (m : Machine) (w : IsSound m) where
  abbrev pub Good : Outcome → Type 0
  Good = Keeps m.limits m.ctx.gas_limit

  after_nested-Keeps :
      (s : VmState) (e : Execution)
      → ((r : VmResult) → e ≡ finished r → s.gas_used + r.gas_used ≤ m.ctx.gas_limit)
      → IsBounded m.limits m.ctx.gas_limit s
      → Good (after_nested m.limits m.ctx s e)
  unfolding after_nested
  after_nested-Keeps s (finished r) paid b =
      after_call-Keeps m.limits m.ctx r s (paid r refl) w.limit_fits b
  after_nested-Keeps s (Execution.fault x) paid b = tt
  after_nested-Keeps s Execution.stuck paid b = tt

  call_bytecode-Keeps :
      (callee : List ℕ) (gas : ℕ) (s : VmState) (o : Option Bytecode)
      → s.gas_used + gas ≤ m.ctx.gas_limit
      → IsBounded m.limits m.ctx.gas_limit s
      → Good (call_bytecode m.limits m.ctx m.nested callee gas s o)
  unfolding call_bytecode
  call_bytecode-Keeps callee gas s none room b =
      abort-Keeps m.limits m.ctx.gas_limit Status.trap s b.gas
  call_bytecode-Keeps callee gas s (some bc) room b =
      after_nested-Keeps s _
        (λ r e. omega (
          arith,
          w.nested_gas bc (callee_context m.ctx callee gas) r (omega (arith, w.limit_fits)) e,
        ))
        b

  call_with_gas-Keeps :
      (get : List ℕ → Option (List ℕ)) (s : VmState) (t : Option (ℕ × List ℕ))
      → top s.stack ≡ t
      → IsBounded m.limits m.ctx.gas_limit s
      → Good (call_with_gas m.limits m.code m.ctx get m.nested s t)
  unfolding call_with_gas
  call_with_gas-Keeps get s none e b = abort-Keeps m.limits m.ctx.gas_limit Status.trap s b.gas
  call_with_gas-Keeps get s (some (gas, rest)) e b =
      if-elim Good (ltb ((m.ctx.gas_limit + 2 ^ 64 - s.gas_used) % 2 ^ 64) gas)
        (λ _. abort-Keeps m.limits m.ctx.gas_limit Status.out_of_gas s b.gas)
        (λ room.
          call_bytecode-Keeps (take 32 (drop s.pc m.code)) gas _ _
            (ground (arith, b.gas, w.limit_fits))
            (omega (arith, b.gas, b.stack_size, b.mem_size, length-top s.stack gas rest e)))

  exec_call-Keeps :
      (s : VmState)
      → IsBounded m.limits m.ctx.gas_limit s
      → Good (exec_call m.limits m.code m.ctx m.host m.nested s)
  unfolding exec_call
  exec_call-Keeps s b = elim (Option-cases m.host.get_code) [
    | inl e ↦ rw (e, exec_call) (abort-Keeps m.limits m.ctx.gas_limit Status.trap s b.gas)
    | inr (get, e) ↦
        rw (e, exec_call)
          (if-elim Good (ltb (length m.code) (s.pc + 32)) (λ _. tt)
            (λ _. call_with_gas-Keeps get s (top s.stack) refl b))
  ]

  exec_op-Keeps :
      (op : Op) (s : VmState) → IsBounded m.limits m.ctx.gas_limit s → Good (exec_op m op s)
  unfolding exec_op
  exec_op-Keeps Op.stop s b = record {
    gas = b.gas;
    no_writes = λ n. absurd (n refl);
    no_events = λ n. absurd (n refl);
  }
  exec_op-Keeps Op.revert s b = abort-Keeps m.limits m.ctx.gas_limit Status.revert s b.gas
  exec_op-Keeps Op.push_u64 s b = exec_push_u64-Keeps m.limits m.ctx.gas_limit m.code s b
  exec_op-Keeps Op.push_bytes32 s b = exec_push_bytes32-Keeps m.limits m.ctx.gas_limit m.code s b
  exec_op-Keeps Op.pop s b = exec_pop-Keeps m.limits m.ctx.gas_limit s b
  exec_op-Keeps Op.dup s b = exec_dup-Keeps m.limits m.ctx.gas_limit s b
  exec_op-Keeps Op.swap s b = exec_swap-Keeps m.limits m.ctx.gas_limit s b
  exec_op-Keeps Op.add s b = exec_binary-Keeps m.limits m.ctx.gas_limit Op.add s b
  exec_op-Keeps Op.sub s b = exec_binary-Keeps m.limits m.ctx.gas_limit Op.sub s b
  exec_op-Keeps Op.mul s b = exec_binary-Keeps m.limits m.ctx.gas_limit Op.mul s b
  exec_op-Keeps Op.div s b = exec_binary-Keeps m.limits m.ctx.gas_limit Op.div s b
  exec_op-Keeps Op.mod_op s b = exec_binary-Keeps m.limits m.ctx.gas_limit Op.mod_op s b
  exec_op-Keeps Op.eq s b = exec_binary-Keeps m.limits m.ctx.gas_limit Op.eq s b
  exec_op-Keeps Op.lt s b = exec_binary-Keeps m.limits m.ctx.gas_limit Op.lt s b
  exec_op-Keeps Op.gt s b = exec_binary-Keeps m.limits m.ctx.gas_limit Op.gt s b
  exec_op-Keeps Op.jmp s b = exec_jmp-Keeps m.limits m.ctx.gas_limit m.code s b
  exec_op-Keeps Op.jz s b = exec_jz-Keeps m.limits m.ctx.gas_limit m.code s b
  exec_op-Keeps Op.mload s b = exec_mload-Keeps m.limits m.ctx.gas_limit s b
  exec_op-Keeps Op.mstore s b = exec_mstore-Keeps m.limits m.ctx.gas_limit s b
  exec_op-Keeps Op.sha256_mem s b =
      exec_sha256_mem-Keeps m.limits m.ctx.gas_limit m.sha256 s w.digest b
  exec_op-Keeps Op.sload s b = exec_sload-Keeps m.limits m.ctx.gas_limit m.ctx m.host s b
  exec_op-Keeps Op.sstore s b = exec_sstore-Keeps m.limits m.ctx.gas_limit m.ctx m.host s b
  exec_op-Keeps Op.emit s b = exec_emit-Keeps m.limits m.ctx.gas_limit m.ctx s b
  exec_op-Keeps Op.call s b = exec_call-Keeps s b

  exec_known-Keeps :
      (op : Op) (s : VmState) → IsBounded m.limits m.ctx.gas_limit s → Good (exec_known m op s)
  unfolding exec_known
  exec_known-Keeps op s b = elim (Option-cases (consume m.ctx.gas_limit s.gas_used (op_gas op))) [
    | inl e ↦ rw (e, exec_known) (abort-Keeps m.limits m.ctx.gas_limit Status.out_of_gas s b.gas)
    | inr (u, e) ↦
        rw (e, exec_known)
          (exec_op-Keeps op _ (omega (arith, b.stack_size, b.mem_size, consume-le _ _ _ u e)))
  ]

  pub round-Keeps : (s : VmState) → IsBounded m.limits m.ctx.gas_limit s → Good (round m s)
  unfolding round
  round-Keeps s b =
      if-elim Good (ltb m.limits.max_steps s.steps)
        (λ _. abort-Keeps m.limits m.ctx.gas_limit Status.trap s b.gas)
        (λ _. elim (Option-cases (op_at m.code s.pc)) [
          | inr (op, e) ↦
              rw (e, round) (exec_known-Keeps op _ (omega (arith, b.gas, b.stack_size, b.mem_size)))
          | inl e ↦ elim (Option-cases (consume m.ctx.gas_limit s.gas_used 0)) [
            | inl f ↦
                rw (e, round)
                  (rw (f, round) (abort-Keeps m.limits m.ctx.gas_limit Status.out_of_gas s b.gas))
            | inr (u, f) ↦
                rw (e, round)
                  (rw (f, round) (omega (arith, b.stack_size, b.mem_size, consume-le _ _ _ u f)))
          ]
        ])

  -- What the loop leaves behind.
  abbrev pub Closed : Outcome → Type 0
  Closed (running s) = ⊥
  Closed (halted status s) = IsClosed m.ctx.gas_limit status s
  Closed (Outcome.fault x) = Unit {0}
  Closed Outcome.stuck = Unit {0}

  pub run-Closed :
      (fuel : ℕ) (s : VmState) → IsBounded m.limits m.ctx.gas_limit s → Closed (run fuel m s)
  unfolding run
  run-Closed zero s b = tt
  run-Closed (suc fuel) s b = elim (Bool-cases (ltb s.pc (length m.code))) [
    | inr end ↦
        rw (end, run)
          (record {
            gas = b.gas;
            no_writes = λ n. absurd (n refl);
            no_events = λ n. absurd (n refl);
          })
    | inl more ↦ rw (more, run) (next (round m s) (round-Keeps s b) (run-Closed fuel))
  ]
    where
      next :
          (o : Outcome)
          → Good o
          → ((s' : VmState) → IsBounded m.limits m.ctx.gas_limit s' → Closed (run fuel m s'))
          → Closed (elim o [
            | running s' ↦ run fuel m s'
            | halted status s' ↦ halted status s'
            | Outcome.fault x ↦ Outcome.fault x
            | Outcome.stuck ↦ Outcome.stuck
          ])
      next (running s') k ih = ih s' k
      next (halted status s') k ih = k
      next (Outcome.fault x) k ih = tt
      next Outcome.stuck k ih = tt
