-- ===== src/Vm/Bounds/Whole.antt =====
-- A whole execution: it uses no more gas than it was given, and has effects only if it ends well.
use randioum.Base.{
  ℕ, zero, suc, ◌≤◌, ◌≡◌, ◌≢◌, refl, subst, List, [], ltb, length, length-replicate, if-elim,
  Option-cases, inl, inr, arith,
}
use randioum.Codec.Bytes.{IsU64}
use randioum.Vm.Types.{
  Bytecode, ValidationLimits, Status, VmState, VmResult, Host, ExecutionContext, Outcome, running,
  halted, Execution, finished,
}
use randioum.Vm.Validate.{validate_offsets}
use randioum.Vm.Execute.{Machine, finish, execute, machine, initial, run_fuel}
use randioum.Vm.Bounds.{IsBounded, IsClosed}
use randioum.Vm.Bounds.Run.{IsSound, Closed, run-Closed}

-- Gas within the limit, and no effects unless the status is `Ok`.
pub record IsContained (gas_limit : ℕ) (r : VmResult) : Type 0 where
  pub gas : r.gas_used ≤ gas_limit
  pub no_writes : r.status ≢ Status.ok → r.writes ≡ []
  pub no_events : r.status ≢ Status.ok → r.events ≡ []

abbrev pub Contains : ℕ → Execution → Type 0
Contains g (finished r) = IsContained g r
Contains g (Execution.fault x) = Unit {0}
Contains g Execution.stuck = Unit {0}

finish-halted :
    (g : ℕ) (status : Status) (s : VmState)
    → IsClosed g status s
    → Contains g (finish (halted status s))
unfolding finish
finish-halted g Status.trap s c = record {
  gas = c.gas;
  no_writes = λ _. refl;
  no_events = λ _. refl;
}
finish-halted g Status.ok s c = record {
  gas = c.gas;
  no_writes = c.no_writes;
  no_events = c.no_events;
}
finish-halted g Status.revert s c = record {
  gas = c.gas;
  no_writes = c.no_writes;
  no_events = c.no_events;
}
finish-halted g Status.out_of_gas s c = record {
  gas = c.gas;
  no_writes = c.no_writes;
  no_events = c.no_events;
}
finish-halted g Status.invalid_bytecode s c = record {
  gas = c.gas;
  no_writes = c.no_writes;
  no_events = c.no_events;
}

finish-Contains :
    (m : Machine) (w : IsSound m) (o : Outcome) → Closed m w o → Contains m.ctx.gas_limit (finish o)
unfolding finish
finish-Contains m w (running s) c = absurd c
finish-Contains m w (halted status s) c = finish-halted m.ctx.gas_limit status s c
finish-Contains m w (Outcome.fault x) c = tt
finish-Contains m w Outcome.stuck c = tt

refused-Contains :
    (g : ℕ) (status : Status)
    → IsContained g (record { status = status; gas_used = 0; writes = []; events = [] })
refused-Contains g status = record {
  gas = omega arith;
  no_writes = λ _. refl;
  no_events = λ _. refl;
}

Contains-finished :
    (g : ℕ) (e : Execution) (r : VmResult) → Contains g e → e ≡ finished r → r.gas_used ≤ g
Contains-finished g (finished q) r c h = ground (arith, c.gas)
Contains-finished g (Execution.fault x) r c h = cc
Contains-finished g Execution.stuck r c h = cc

initial-IsBounded : (limits : ValidationLimits) (g : ℕ) → IsBounded limits g (initial limits)
initial-IsBounded limits g = omega (arith, length-replicate {A = ℕ} limits.max_memory_bytes 0)

machine-IsSound :
    (limits : ValidationLimits) (sha256 : List ℕ → List ℕ) (host : Host) (bc : Bytecode)
    (ctx : ExecutionContext) (nested : Bytecode → ExecutionContext → Execution)
    → ((x : List ℕ) → length (sha256 x) ≡ 32)
    → IsU64 ctx.gas_limit
    → ((bc' : Bytecode) (ctx' : ExecutionContext)
        → IsU64 ctx'.gas_limit
        → Contains ctx'.gas_limit (nested bc' ctx'))
    → IsSound (machine limits sha256 host bc ctx nested)
machine-IsSound limits sha256 host bc ctx nested digest fits inner = record {
  limit_fits = fits;
  digest = digest;
  nested_gas = λ bc' ctx' r fits' e.
      Contains-finished ctx'.gas_limit (nested bc' ctx') r (inner bc' ctx' fits') e;
}

module _ (limits : ValidationLimits) (sha256 : List ℕ → List ℕ) (host : Host)
    (digest : (x : List ℕ) → length (sha256 x) ≡ 32) where
  execute-Contains :
      (levels : ℕ) (bc : Bytecode) (ctx : ExecutionContext)
      → IsU64 ctx.gas_limit
      → Contains ctx.gas_limit (execute levels limits sha256 host bc ctx)
  unfolding execute
  execute-Contains zero bc ctx fits = tt
  execute-Contains (suc levels) bc ctx fits = elim (Option-cases (validate_offsets limits bc)) [
    | inl e ↦ rw (e, execute) (refused-Contains ctx.gas_limit Status.invalid_bytecode)
    | inr (inst, e) ↦
        let sound =
          machine-IsSound limits sha256 host bc ctx (execute levels limits sha256 host) digest fits
            (execute-Contains levels) in
        rw (e, execute)
          (if-elim (Contains ctx.gas_limit) (ltb limits.max_call_depth ctx.depth)
            (λ _. refused-Contains ctx.gas_limit Status.trap)
            (λ _. finish-Contains _ sound _ (
              run-Closed _ sound (run_fuel limits) (initial limits)
                (initial-IsBounded limits ctx.gas_limit))))
  ]

-- A finished execution has used no more gas than its context's limit, nested calls included, and
-- has writes or events only if its status is `Ok`. The limit is a 64-bit number, and the hash
-- function returns 32 bytes.
pub execute_contained :
    (limits : ValidationLimits) (sha256 : List ℕ → List ℕ) (host : Host) (levels : ℕ)
    (bc : Bytecode) (ctx : ExecutionContext) (r : VmResult)
    → ((x : List ℕ) → length (sha256 x) ≡ 32)
    → IsU64 ctx.gas_limit
    → execute levels limits sha256 host bc ctx ≡ finished r
    → (r.gas_used ≤ ctx.gas_limit) × (r.status ≢ Status.ok → (r.writes ≡ []) × (r.events ≡ []))
execute_contained limits sha256 host levels bc ctx r digest fits e =
    let c : IsContained ctx.gas_limit r =
      subst (Contains ctx.gas_limit) e
        (execute-Contains limits sha256 host digest levels bc ctx fits) in
    (c.gas, λ n. (c.no_writes n, c.no_events n))
