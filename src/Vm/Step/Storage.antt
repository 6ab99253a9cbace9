-- ===== src/Vm/Step/Storage.antt =====
-- SLOAD, SSTORE and EMIT.
use randioum.Base.{
  ℕ, List, [], ◌∷◌, ◌++◌, not, ◌==◌, if◌then◌else◌, length, take, drop, Option, none, some,
}
use randioum.Codec.Bytes.{read_u64_le, append_u64_le}
use randioum.Vm.Types.{
  ValidationLimits, VmState, Host, ExecutionContext, memory_access, Outcome, running,
}
use randioum.Vm.Step.{trap, push, top, top_two}
use randioum.Vm.Step.Memory.{exceeds, outside}

-- The four words of a key or a topic, the last on top, as 32 bytes; and the stack below them.
unfoldable pub top_hash : List ℕ → Option (List ℕ × List ℕ)
top_hash [] = none
top_hash (w3 ∷ []) = none
top_hash (w3 ∷ w2 ∷ []) = none
top_hash (w3 ∷ w2 ∷ w1 ∷ []) = none
top_hash (w3 ∷ w2 ∷ w1 ∷ w0 ∷ rest) =
    some (append_u64_le (append_u64_le (append_u64_le (append_u64_le [] w0) w1) w2) w3, rest)

-- `decode_u64_le`
unfoldable pub decode_u64_le : List ℕ → Option ℕ
decode_u64_le bytes = if not (length bytes == 8) then none else some (read_u64_le bytes 0)

-- The word that a stored value stands for: 0 if there is none or it is empty.
unfoldable pub stored_word : Option (List ℕ) → Option ℕ
stored_word none = some 0
stored_word (some []) = some 0
stored_word (some (b ∷ bs)) = decode_u64_le (b ∷ bs)

-- SLOAD
unfoldable pub exec_sload : ValidationLimits → ExecutionContext → Host → VmState → Outcome
exec_sload limits ctx host s = elim host.storage_get [
  | none ↦ trap s
  | some get ↦ elim (top_hash s.stack) [
    | none ↦ trap s
    | some (key, rest) ↦ elim (stored_word (get ctx.self key)) [
      | none ↦ trap s
      | some v ↦ push limits v (record s { stack = rest })
    ]
  ]
]

-- SSTORE: the value is on top of the key.
unfoldable pub exec_sstore : ExecutionContext → Host → VmState → Outcome
exec_sstore ctx host s = elim host.storage_set [
  | none ↦ trap s
  | some set ↦ elim (top s.stack) [
    | none ↦ trap s
    | some (v, below) ↦ elim (top_hash below) [
      | none ↦ trap s
      | some (key, rest) ↦ running (record s {
        stack = rest;
        pending_writes = set s.pending_writes ctx.self key (append_u64_le [] v);
      })
    ]
  ]
]

-- EMIT: length and offset of the data, from the top down, above the topic.
unfoldable pub exec_emit : ExecutionContext → VmState → Outcome
exec_emit ctx s = elim (top_two s.stack) [
  | none ↦ trap s
  | some (len, off, below) ↦ elim (top_hash below) [
    | none ↦ trap s
    | some (topic, rest) ↦
        if exceeds off len (length s.mem)
        then trap s
        else if outside off len (length s.mem)
        then Outcome.fault memory_access
        else running (record s {
          stack = rest;
          events =
              s.events
              ++ (record {
                contract = ctx.self;
                topic = topic;
                data_bytes = take len (drop off s.mem);
              }
                  ∷ []);
        })
  ]
]
