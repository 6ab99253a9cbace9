-- ===== src/Vm/Bounds/Effects.antt =====
-- The bounds are kept by the instructions on memory, storage and events.
use randioum.Base.{
  ℕ, ◌+◌, ◌≤◌, ◌≡◌, ap, List, [], ◌∷◌, ◌++◌, length, length-append, length-take, length-drop, take,
  drop, some, Bool-cases, if-elim, Option-cases, inl, inr, arith,
}
use randioum.Codec.Bytes.{append_u64_le}
use randioum.Codec.Bytes.Laws.{append_u64_le_lem}
use randioum.Vm.Types.{ValidationLimits, Status, VmState, Host, ExecutionContext}
use randioum.Vm.Step.{top, top_two}
use randioum.Vm.Step.Memory.{
  exceeds, outside, write_bytes, top_three, exec_mload, exec_mstore, exec_sha256_mem,
}
use randioum.Vm.Step.Storage.{top_hash, stored_word, exec_sload, exec_sstore, exec_emit}
use randioum.Vm.Bounds.{IsBounded, Keeps, abort-Keeps, push-Keeps, length-top, length-top_two}

-- A write inside of the memory leaves its size as it was.
pub length-write_bytes :
    (mem : List ℕ) (off : ℕ) (bytes : List ℕ)
    → off + length bytes ≤ length mem
    → length (write_bytes mem off bytes) ≡ length mem
unfolding write_bytes
length-write_bytes mem off bytes h = omega (
  arith,
  length-append (take off mem) (bytes ++ drop (off + length bytes) mem),
  length-append bytes (drop (off + length bytes) mem),
  length-take off mem,
  length-drop (off + length bytes) mem,
)

length-word : (v : ℕ) → length (append_u64_le [] v) ≡ 8
length-word v = ap length (append_u64_le_lem [] v)

length-top_three :
    (st : List ℕ) (c b a : ℕ) (rest : List ℕ)
    → top_three st ≡ some (c, b, a, rest)
    → length st ≡ 3 + length rest
length-top_three [] c b a rest e = cc
length-top_three (x ∷ []) c b a rest e = cc
length-top_three (x ∷ y ∷ []) c b a rest e = cc
length-top_three (x ∷ y ∷ z ∷ xs) c b a rest e = ground arith

length-top_hash :
    (st key rest : List ℕ) → top_hash st ≡ some (key, rest) → length st ≡ 4 + length rest
unfolding top_hash
length-top_hash [] key rest e = cc
length-top_hash (x ∷ []) key rest e = cc
length-top_hash (x ∷ y ∷ []) key rest e = cc
length-top_hash (x ∷ y ∷ z ∷ []) key rest e = cc
length-top_hash (x ∷ y ∷ z ∷ u ∷ xs) key rest e = ground arith

module _ (limits : ValidationLimits) (g : ℕ) where
  pub exec_mload-Keeps : (s : VmState) → IsBounded limits g s → Keeps limits g (exec_mload limits s)
  unfolding exec_mload
  exec_mload-Keeps s b = elim (Option-cases (top s.stack)) [
    | inl e ↦ rw (e, exec_mload) (abort-Keeps limits g Status.trap s b.gas)
    | inr ((off, rest), e) ↦ elim (Bool-cases (exceeds off 8 (length s.mem))) [
      | inl big ↦ rw (e, exec_mload) (rw big (abort-Keeps limits g Status.trap s b.gas))
      | inr fits ↦ elim (Bool-cases (outside off 8 (length s.mem))) [
        | inl wrapped ↦ rw (e, exec_mload) (rw (fits, wrapped) tt)
        | inr inside ↦
            rw (e, exec_mload)
              (rw (fits, inside)
                (push-Keeps limits g _ _
                  (omega (arith, b.gas, b.stack_size, b.mem_size, length-top s.stack off rest e))))
      ]
    ]
  ]

  pub exec_mstore-Keeps : (s : VmState) → IsBounded limits g s → Keeps limits g (exec_mstore s)
  unfolding exec_mstore
  exec_mstore-Keeps s b = elim (Option-cases (top_two s.stack)) [
    | inl e ↦ rw (e, exec_mstore) (abort-Keeps limits g Status.trap s b.gas)
    | inr ((off, v, rest), e) ↦ elim (Bool-cases (exceeds off 8 (length s.mem))) [
      | inl big ↦ rw (e, exec_mstore) (rw big (abort-Keeps limits g Status.trap s b.gas))
      | inr fits ↦ elim (Bool-cases (outside off 8 (length s.mem))) [
        | inl wrapped ↦ rw (e, exec_mstore) (rw (fits, wrapped) tt)
        | inr inside ↦
            rw (e, exec_mstore)
              (rw (fits, inside)
                (omega (
                  arith,
                  b.gas,
                  b.stack_size,
                  b.mem_size,
                  length-top_two s.stack off v rest e,
                  length-word v,
                  length-write_bytes s.mem off (append_u64_le [] v) (ground (arith, length-word v)),
                )))
      ]
    ]
  ]

  pub exec_sha256_mem-Keeps :
      (sha256 : List ℕ → List ℕ) (s : VmState)
      → ((x : List ℕ) → length (sha256 x) ≡ 32)
      → IsBounded limits g s
      → Keeps limits g (exec_sha256_mem sha256 s)
  unfolding exec_sha256_mem
  exec_sha256_mem-Keeps sha256 s digest b = elim (Option-cases (top_three s.stack)) [
    | inl e ↦ rw (e, exec_sha256_mem) (abort-Keeps limits g Status.trap s b.gas)
    | inr ((len, off, dst, rest), e) ↦
        rw (e, exec_sha256_mem)
          (if-elim (Keeps limits g) (exceeds off len (length s.mem))
            (λ _. abort-Keeps limits g Status.trap s b.gas)
            (λ _.
              if-elim (Keeps limits g) (exceeds dst 32 (length s.mem))
                (λ _. abort-Keeps limits g Status.trap s b.gas)
                (λ _.
                  if-elim (Keeps limits g) (outside off len (length s.mem)) (λ _. tt)
                    (λ _.
                      if-elim (Keeps limits g) (outside dst 32 (length s.mem)) (λ _. tt)
                        (λ inside. omega (
                          arith,
                          b.gas,
                          b.stack_size,
                          b.mem_size,
                          length-top_three s.stack len off dst rest e,
                          length-write_bytes s.mem dst (sha256 (take len (drop off s.mem)))
                              (ground (arith, digest (take len (drop off s.mem)))),
                        ))))))
  ]

  pub exec_sload-Keeps :
      (ctx : ExecutionContext) (host : Host) (s : VmState)
      → IsBounded limits g s
      → Keeps limits g (exec_sload limits ctx host s)
  unfolding exec_sload
  exec_sload-Keeps ctx host s b = elim (Option-cases host.storage_get) [
    | inl e ↦ rw (e, exec_sload) (abort-Keeps limits g Status.trap s b.gas)
    | inr (get, e) ↦ elim (Option-cases (top_hash s.stack)) [
      | inl f ↦ rw (e, exec_sload) (rw (f, exec_sload) (abort-Keeps limits g Status.trap s b.gas))
      | inr ((key, rest), f) ↦ elim (Option-cases (stored_word (get ctx.self key))) [
        | inl w ↦
            rw (e, exec_sload)
              (rw (f, exec_sload) (rw (w, exec_sload) (abort-Keeps limits g Status.trap s b.gas)))
        | inr (v, w) ↦
            rw (e, exec_sload)
              (rw (f, exec_sload)
                (rw (w, exec_sload)
                  (push-Keeps limits g v _ (
                    omega (
                      arith,
                      b.gas,
                      b.stack_size,
                      b.mem_size,
                      length-top_hash s.stack key rest f,
                    )))))
      ]
    ]
  ]

  pub exec_sstore-Keeps :
      (ctx : ExecutionContext) (host : Host) (s : VmState)
      → IsBounded limits g s
      → Keeps limits g (exec_sstore ctx host s)
  unfolding exec_sstore
  exec_sstore-Keeps ctx host s b = elim (Option-cases host.storage_set) [
    | inl e ↦ rw (e, exec_sstore) (abort-Keeps limits g Status.trap s b.gas)
    | inr (set, e) ↦ elim (Option-cases (top s.stack)) [
      | inl f ↦ rw (e, exec_sstore) (rw (f, exec_sstore) (abort-Keeps limits g Status.trap s b.gas))
      | inr ((v, below), f) ↦ elim (Option-cases (top_hash below)) [
        | inl w ↦
            rw (e, exec_sstore)
              (rw (f, exec_sstore) (rw (w, exec_sstore) (abort-Keeps limits g Status.trap s b.gas)))
        | inr ((key, rest), w) ↦
            rw (e, exec_sstore)
              (rw (f, exec_sstore)
                (rw (w, exec_sstore)
                  (omega (
                    arith,
                    b.gas,
                    b.stack_size,
                    b.mem_size,
                    length-top s.stack v below f,
                    length-top_hash below key rest w,
                  ))))
      ]
    ]
  ]

  pub exec_emit-Keeps :
      (ctx : ExecutionContext) (s : VmState)
      → IsBounded limits g s
      → Keeps limits g (exec_emit ctx s)
  unfolding exec_emit
  exec_emit-Keeps ctx s b = elim (Option-cases (top_two s.stack)) [
    | inl e ↦ rw (e, exec_emit) (abort-Keeps limits g Status.trap s b.gas)
    | inr ((len, off, below), e) ↦ elim (Option-cases (top_hash below)) [
      | inl w ↦ rw (e, exec_emit) (rw (w, exec_emit) (abort-Keeps limits g Status.trap s b.gas))
      | inr ((topic, rest), w) ↦
          rw (e, exec_emit)
            (rw (w, exec_emit)
              (if-elim (Keeps limits g) (exceeds off len (length s.mem))
                (λ _. abort-Keeps limits g Status.trap s b.gas)
                (λ _.
                  if-elim (Keeps limits g) (outside off len (length s.mem)) (λ _. tt)
                    (λ _. omega (
                      arith,
                      b.gas,
                      b.stack_size,
                      b.mem_size,
                      length-top_two s.stack len off below e,
                      length-top_hash below topic rest w,
                    )))))
    ]
  ]
