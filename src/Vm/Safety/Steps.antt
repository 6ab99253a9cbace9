-- ===== src/Vm/Safety/Steps.antt =====
-- An instruction of validated code reads no byte outside of the code, and leaves the program
-- counter at an instruction or behind the end.
use randioum.Base.{
  ℕ, ◌+◌, ◌≤◌, ◌≡◌, List, true, ◌==◌, ltb, leb, length, if-elim, Option-cases, inl, inr, arith,
}
use randioum.Codec.Bytes.{read_u32_le}
use randioum.Vm.Types.{
  ValidationLimits, Op, VmState, Host, ExecutionContext, Outcome, running, halted, code_read,
  memory_access,
}
use randioum.Vm.Validate.{contains}
use randioum.Vm.Step.{
  push, top, top_two, binary_value, exec_push_u64, exec_push_bytes32, exec_pop, exec_dup, exec_swap,
  exec_binary, exec_jmp, exec_jz,
}
use randioum.Vm.Step.Memory.{exceeds, outside, top_three, exec_mload, exec_mstore, exec_sha256_mem}
use randioum.Vm.Step.Storage.{top_hash, stored_word, exec_sload, exec_sstore, exec_emit}
use randioum.Vm.Safety.{IsBoundary}

-- The program counter is `pc`, and `n` instructions have begun.
abbrev pub IsAt : List ℕ → List ℕ → ℕ → ℕ → VmState → Type 0
IsAt code inst n pc s = IsBoundary code inst pc × (s.steps ≡ n)

abbrev pub Stays : List ℕ → List ℕ → ℕ → Outcome → Type 0
Stays code inst n (running s) = IsAt code inst n s.pc s
Stays code inst n (halted status s) = Unit {0}
Stays code inst n (Outcome.fault code_read) = ⊥
Stays code inst n (Outcome.fault memory_access) = Unit {0}
Stays code inst n Outcome.stuck = ⊥

module _ (code inst : List ℕ) (n : ℕ) where
  pub push-Stays :
      (limits : ValidationLimits) (v : ℕ) (s : VmState)
      → IsAt code inst n s.pc s
      → Stays code inst n (push limits v s)
  unfolding push
  push-Stays limits v s b =
      if-elim (Stays code inst n) (leb limits.max_stack_items (length s.stack)) (λ _. tt) (λ _. b)

  pub exec_push_u64-Stays :
      (limits : ValidationLimits) (s : VmState)
      → s.pc + 8 ≤ length code
      → IsAt code inst n (s.pc + 8) s
      → Stays code inst n (exec_push_u64 limits code s)
  unfolding exec_push_u64
  exec_push_u64-Stays limits s h b =
      if-elim (Stays code inst n) (ltb (length code) (s.pc + 8)) (λ out. absurd (ground arith))
        (λ _. push-Stays limits _ _ b)

  pub exec_push_bytes32-Stays :
      (limits : ValidationLimits) (s : VmState)
      → s.pc + 32 ≤ length code
      → IsAt code inst n (s.pc + 32) s
      → Stays code inst n (exec_push_bytes32 limits code s)
  unfolding exec_push_bytes32
  exec_push_bytes32-Stays limits s h b =
      if-elim (Stays code inst n) (ltb limits.max_stack_items (length s.stack + 4)) (λ _. tt)
        (λ _.
          if-elim (Stays code inst n) (ltb (length code) (s.pc + 32)) (λ out. absurd (ground arith))
            (λ _. b))

  pub exec_pop-Stays : (s : VmState) → IsAt code inst n s.pc s → Stays code inst n (exec_pop s)
  unfolding exec_pop
  exec_pop-Stays s b = elim (Option-cases (top s.stack)) [
    | inl e ↦ rw (e, exec_pop) tt
    | inr (t, e) ↦ rw (e, exec_pop) b
  ]

  pub exec_dup-Stays :
      (limits : ValidationLimits) (s : VmState)
      → IsAt code inst n s.pc s
      → Stays code inst n (exec_dup limits s)
  unfolding exec_dup
  exec_dup-Stays limits s b = elim (Option-cases (top s.stack)) [
    | inl e ↦ rw (e, exec_dup) tt
    | inr (t, e) ↦ rw (e, exec_dup) (push-Stays limits _ s b)
  ]

  pub exec_swap-Stays : (s : VmState) → IsAt code inst n s.pc s → Stays code inst n (exec_swap s)
  unfolding exec_swap
  exec_swap-Stays s b = elim (Option-cases (top_two s.stack)) [
    | inl e ↦ rw (e, exec_swap) tt
    | inr (t, e) ↦ rw (e, exec_swap) b
  ]

  pub exec_binary-Stays :
      (op : Op) (limits : ValidationLimits) (s : VmState)
      → IsAt code inst n s.pc s
      → Stays code inst n (exec_binary op limits s)
  unfolding exec_binary
  exec_binary-Stays op limits s b = elim (Option-cases (top_two s.stack)) [
    | inl e ↦ rw (e, exec_binary) tt
    | inr ((x, y, rest), e) ↦ elim (Option-cases (binary_value op y x)) [
      | inl f ↦ rw (e, exec_binary) (rw (f, exec_binary) tt)
      | inr (v, f) ↦ rw (e, exec_binary) (rw (f, exec_binary) (push-Stays limits v _ b))
    ]
  ]

  pub exec_jmp-Stays :
      (s : VmState)
      → s.pc + 4 ≤ length code
      → contains inst (read_u32_le code s.pc) ≡ true
      → s.steps ≡ n
      → Stays code inst n (exec_jmp code s)
  unfolding exec_jmp
  exec_jmp-Stays s h target c =
      if-elim (Stays code inst n) (ltb (length code) (s.pc + 4)) (λ out. absurd (ground arith))
        (λ _. (inl target, c))

  pub exec_jz-Stays :
      (s : VmState)
      → s.pc + 4 ≤ length code
      → contains inst (read_u32_le code s.pc) ≡ true
      → IsAt code inst n (s.pc + 4) s
      → Stays code inst n (exec_jz code s)
  unfolding exec_jz
  exec_jz-Stays s h target b =
      if-elim (Stays code inst n) (ltb (length code) (s.pc + 4)) (λ out. absurd (ground arith))
        (λ _. elim (Option-cases (top s.stack)) [
          | inl e ↦ rw (e, exec_jz) tt
          | inr ((v, rest), e) ↦
              rw (e, exec_jz)
                (if-elim (IsBoundary code inst) (v == 0) (λ _. inl target) (λ _. b.0), b.1)
        ])

  pub exec_mload-Stays :
      (limits : ValidationLimits) (s : VmState)
      → IsAt code inst n s.pc s
      → Stays code inst n (exec_mload limits s)
  unfolding exec_mload
  exec_mload-Stays limits s b = elim (Option-cases (top s.stack)) [
    | inl e ↦ rw (e, exec_mload) tt
    | inr ((off, rest), e) ↦
        rw (e, exec_mload)
          (if-elim (Stays code inst n) (exceeds off 8 (length s.mem)) (λ _. tt)
            (λ _.
              if-elim (Stays code inst n) (outside off 8 (length s.mem)) (λ _. tt)
                (λ _. push-Stays limits _ _ b)))
  ]

  pub exec_mstore-Stays :
      (s : VmState) → IsAt code inst n s.pc s → Stays code inst n (exec_mstore s)
  unfolding exec_mstore
  exec_mstore-Stays s b = elim (Option-cases (top_two s.stack)) [
    | inl e ↦ rw (e, exec_mstore) tt
    | inr ((off, v, rest), e) ↦
        rw (e, exec_mstore)
          (if-elim (Stays code inst n) (exceeds off 8 (length s.mem)) (λ _. tt)
            (λ _. if-elim (Stays code inst n) (outside off 8 (length s.mem)) (λ _. tt) (λ _. b)))
  ]

  pub exec_sha256_mem-Stays :
      (sha256 : List ℕ → List ℕ) (s : VmState)
      → IsAt code inst n s.pc s
      → Stays code inst n (exec_sha256_mem sha256 s)
  unfolding exec_sha256_mem
  exec_sha256_mem-Stays sha256 s b = elim (Option-cases (top_three s.stack)) [
    | inl e ↦ rw (e, exec_sha256_mem) tt
    | inr ((len, off, dst, rest), e) ↦
        rw (e, exec_sha256_mem)
          (if-elim (Stays code inst n) (exceeds off len (length s.mem)) (λ _. tt)
            (λ _.
              if-elim (Stays code inst n) (exceeds dst 32 (length s.mem)) (λ _. tt)
                (λ _.
                  if-elim (Stays code inst n) (outside off len (length s.mem)) (λ _. tt)
                    (λ _.
                      if-elim (Stays code inst n) (outside dst 32 (length s.mem)) (λ _. tt)
                        (λ _. b)))))
  ]

  pub exec_sload-Stays :
      (limits : ValidationLimits) (ctx : ExecutionContext) (host : Host) (s : VmState)
      → IsAt code inst n s.pc s
      → Stays code inst n (exec_sload limits ctx host s)
  unfolding exec_sload
  exec_sload-Stays limits ctx host s b = elim (Option-cases host.storage_get) [
    | inl e ↦ rw (e, exec_sload) tt
    | inr (get, e) ↦ elim (Option-cases (top_hash s.stack)) [
      | inl f ↦ rw (e, exec_sload) (rw (f, exec_sload) tt)
      | inr ((key, rest), f) ↦ elim (Option-cases (stored_word (get ctx.self key))) [
        | inl w ↦ rw (e, exec_sload) (rw (f, exec_sload) (rw (w, exec_sload) tt))
        | inr (v, w) ↦
            rw (e, exec_sload) (rw (f, exec_sload) (rw (w, exec_sload) (push-Stays limits v _ b)))
      ]
    ]
  ]

  pub exec_sstore-Stays :
      (ctx : ExecutionContext) (host : Host) (s : VmState)
      → IsAt code inst n s.pc s
      → Stays code inst n (exec_sstore ctx host s)
  unfolding exec_sstore
  exec_sstore-Stays ctx host s b = elim (Option-cases host.storage_set) [
    | inl e ↦ rw (e, exec_sstore) tt
    | inr (set, e) ↦ elim (Option-cases (top s.stack)) [
      | inl f ↦ rw (e, exec_sstore) (rw (f, exec_sstore) tt)
      | inr ((v, below), f) ↦ elim (Option-cases (top_hash below)) [
        | inl w ↦ rw (e, exec_sstore) (rw (f, exec_sstore) (rw (w, exec_sstore) tt))
        | inr (t, w) ↦ rw (e, exec_sstore) (rw (f, exec_sstore) (rw (w, exec_sstore) b))
      ]
    ]
  ]

  pub exec_emit-Stays :
      (ctx : ExecutionContext) (s : VmState)
      → IsAt code inst n s.pc s
      → Stays code inst n (exec_emit ctx s)
  unfolding exec_emit
  exec_emit-Stays ctx s b = elim (Option-cases (top_two s.stack)) [
    | inl e ↦ rw (e, exec_emit) tt
    | inr ((len, off, below), e) ↦ elim (Option-cases (top_hash below)) [
      | inl w ↦ rw (e, exec_emit) (rw (w, exec_emit) tt)
      | inr ((topic, rest), w) ↦
          rw (e, exec_emit)
            (rw (w, exec_emit)
              (if-elim (Stays code inst n) (exceeds off len (length s.mem)) (λ _. tt)
                (λ _.
                  if-elim (Stays code inst n) (outside off len (length s.mem)) (λ _. tt) (λ _. b))))
    ]
  ]
