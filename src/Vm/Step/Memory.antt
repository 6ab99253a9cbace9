-- ===== src/Vm/Step/Memory.antt =====
-- MLOAD, MSTORE and SHA256_MEM. The tests `off + 8 > mem.size()` and the like are made on 64-bit
-- numbers that wrap; an access that passes its test and lies outside of the memory is a fault.
use randioum.Base.{
  ℕ, ◌+◌, ◌%◌, ◌^◌, List, [], ◌∷◌, ◌++◌, ltb, if◌then◌else◌, length, take, drop, Bool, Option, none,
  some,
}
use randioum.Codec.Bytes.{read_u64_le, append_u64_le}
use randioum.Vm.Types.{ValidationLimits, VmState, memory_access, Outcome, running}
use randioum.Vm.Step.{trap, push, top, top_two}

-- `off + n > size` on 64-bit numbers.
abbrev pub exceeds : ℕ → ℕ → ℕ → Bool
exceeds off n size = ltb size ((off + n) % 2 ^ 64)

-- The access itself, of `n` bytes from `off` on.
abbrev pub outside : ℕ → ℕ → ℕ → Bool
outside off n size = ltb size (off + n)

-- The memory with the bytes written over those from `off` on.
unfoldable pub write_bytes : List ℕ → ℕ → List ℕ → List ℕ
write_bytes mem off bytes = take off mem ++ (bytes ++ drop (off + length bytes) mem)

-- MLOAD
unfoldable pub exec_mload : ValidationLimits → VmState → Outcome
exec_mload limits s = elim (top s.stack) [
  | none ↦ trap s
  | some (off, rest) ↦
      if exceeds off 8 (length s.mem)
      then trap s
      else if outside off 8 (length s.mem)
      then Outcome.fault memory_access
      else push limits (read_u64_le s.mem off) (record s { stack = rest })
]

-- MSTORE: the offset is on top of the value.
unfoldable pub exec_mstore : VmState → Outcome
exec_mstore s = elim (top_two s.stack) [
  | none ↦ trap s
  | some (off, v, rest) ↦
      if exceeds off 8 (length s.mem)
      then trap s
      else if outside off 8 (length s.mem)
      then Outcome.fault memory_access
      else running (record s { stack = rest; mem = write_bytes s.mem off (append_u64_le [] v) })
]

abbrev pub top_three : List ℕ → Option (ℕ × ℕ × ℕ × List ℕ)
top_three [] = none
top_three (c ∷ []) = none
top_three (c ∷ b ∷ []) = none
top_three (c ∷ b ∷ a ∷ rest) = some (c, b, a, rest)

-- SHA256_MEM: length, offset and destination, from the top down.
unfoldable pub exec_sha256_mem : (List ℕ → List ℕ) → VmState → Outcome
exec_sha256_mem sha256 s = elim (top_three s.stack) [
  | none ↦ trap s
  | some (len, off, dst, rest) ↦
      if exceeds off len (length s.mem)
      then trap s
      else if exceeds dst 32 (length s.mem)
      then trap s
      else if outside off len (length s.mem)
      then Outcome.fault memory_access
      else if outside dst 32 (length s.mem)
      then Outcome.fault memory_access
      else running (record s {
        stack = rest;
        mem = write_bytes s.mem dst (sha256 (take len (drop off s.mem)));
      })
]
