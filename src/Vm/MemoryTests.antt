-- ===== src/Vm/MemoryTests.antt =====
-- The bounds tests of MLOAD and MSTORE: `*off + 8 > mem.size()` on a 64-bit offset.
use randioum.Base.{
  ℕ, ◌+◌, ◌^◌, ◌≤◌, ◌<◌, ◌≡◌, List, ◌∷◌, ◌↔◌, ltb, length, Bool-cases, inl, inr, true, false, arith,
}
use randioum.Codec.Bytes.{IsU64}
use randioum.Vm.Types.{ValidationLimits, VmState, Outcome, running, memory_access}
use randioum.Vm.Step.{push}
use randioum.Vm.Step.Memory.{exceeds, outside, exec_mload, exec_mstore}

push_no_fault :
    (limits : ValidationLimits) (v : ℕ) (s : VmState)
    → push limits v s ≡ Outcome.fault memory_access
    → ⊥
unfolding push
push_no_fault limits v s e = ground arith

running_no_fault : {s : VmState} → running s ≡ Outcome.fault memory_access → ⊥
running_no_fault e = cc

inside :
    (off size : ℕ)
    → ltb (off + 8) (2 ^ 64) ≡ true
    → exceeds off 8 size ≡ false
    → outside off 8 size ≡ false
inside off size h e = ground arith

wraps : (off size : ℕ) → IsU64 off → 8 ≤ size → 2 ^ 64 ≤ off + 8 → exceeds off 8 size ≡ false
wraps off size fits room h = ground arith

leaves : (off size : ℕ) → size < 2 ^ 64 → 2 ^ 64 ≤ off + 8 → outside off 8 size ≡ true
leaves off size small h = ground arith

-- On a state whose top word is `off`, in a machine whose memory has at least 8 and less than
-- 2 ^ 64 bytes, MLOAD reads outside of the memory exactly when `off + 8` wraps.
pub exec_mload_fault :
    (limits : ValidationLimits) (s : VmState) (off : ℕ) (rest : List ℕ)
    → s.stack ≡ off ∷ rest
    → IsU64 off
    → 8 ≤ length s.mem
    → length s.mem < 2 ^ 64
    → (exec_mload limits s ≡ Outcome.fault memory_access) ↔ (2 ^ 64 ≤ off + 8)
unfolding exec_mload
exec_mload_fault limits s off rest e fits room small = (
  λ f. elim (Bool-cases (ltb (off + 8) (2 ^ 64))) [
    | inr h ↦ ground arith
    | inl h ↦
        let f' = rw (e, exec_mload) at f in
        elim (Bool-cases (exceeds off 8 (length s.mem))) [
          | inl big ↦ cc (rw big at f')
          | inr big ↦
              absurd (push_no_fault limits _ _ (rw (big, inside off (length s.mem) h big) at f'))
        ]
  ],
  λ h. rw (e, exec_mload) (rw (wraps off _ fits room h, leaves off _ small h)),
)

-- The same of MSTORE, which then writes outside of the memory.
pub exec_mstore_fault :
    (s : VmState) (off v : ℕ) (rest : List ℕ)
    → s.stack ≡ off ∷ v ∷ rest
    → IsU64 off
    → 8 ≤ length s.mem
    → length s.mem < 2 ^ 64
    → (exec_mstore s ≡ Outcome.fault memory_access) ↔ (2 ^ 64 ≤ off + 8)
unfolding exec_mstore
exec_mstore_fault s off v rest e fits room small = (
  λ f. elim (Bool-cases (ltb (off + 8) (2 ^ 64))) [
    | inr h ↦ ground arith
    | inl h ↦
        let f' = rw (e, exec_mstore) at f in
        elim (Bool-cases (exceeds off 8 (length s.mem))) [
          | inl big ↦ cc (rw big at f')
          | inr big ↦ absurd (running_no_fault (rw (big, inside off (length s.mem) h big) at f'))
        ]
  ],
  λ h. rw (e, exec_mstore) (rw (wraps off _ fits room h, leaves off _ small h)),
)
