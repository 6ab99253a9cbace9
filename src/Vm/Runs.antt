-- ===== src/Vm/Runs.antt =====
-- Runs of the machine on concrete code, and its theorems at concrete inputs.
use randioum.Base.{
  ℕ, ◌+◌, ◌-◌, ◌%◌, ◌^◌, ◌≤◌, ◌≡◌, ◌≢◌, ◌↔◌, refl, List, [], ◌∷◌, ◌++◌, length, replicate,
  length-replicate, none, some, arith,
}
use randioum.Codec.Bytes.{read_u64_le, append_u64_le}
use randioum.Vm.Types.{
  Bytecode, ValidationLimits, Status, VmState, VmResult, Host, ExecutionContext, Outcome, Execution,
  finished, memory_access, StorageWrite, Event,
}
use randioum.Vm.Bytecode.{decode_bytecode, encode_bytecode}
use randioum.Vm.Validate.{
  op_of, op_at, operand_size, inst_offsets, contains, jumps_ok, validate_offsets,
}
use randioum.Vm.Step.{
  consume, op_gas, push, checked_add_u64, binary_value, exec_push_u64, exec_binary,
}
use randioum.Vm.Step.Memory.{exec_mload, exec_mstore}
use randioum.Vm.Step.Storage.{top_hash, exec_sstore}
use randioum.Vm.Execute.{exec_op, exec_known, round, run, finish, execute}
use randioum.Vm.Bounds.Whole.{execute_contained}
use randioum.Vm.Safety.{IsValidated, validate_offsets-IsValidated}
use randioum.Vm.Safety.Loop.{execute-Ends}
use randioum.Vm.Safety.Ops.{Ends}
use randioum.Vm.MemoryTests.{exec_mload_fault, exec_mstore_fault}
use randioum.Vm.RoundTrip.{decode_bytecode-encode_bytecode}

abbrev limits : ValidationLimits
limits = record {
  max_code_bytes = 100;
  max_stack_items = 8;
  max_memory_bytes = 16;
  max_steps = 10;
  max_call_depth = 1;
}

abbrev digest : List ℕ → List ℕ
digest x = replicate 32 (length x % 256)

digest_size : (x : List ℕ) → length (digest x) ≡ 32
digest_size x = length-replicate 32 (length x % 256)

abbrev host : Host
host = record {
  storage_get = none;
  storage_set = some (λ writes self key value.
      writes ++ (record { contract = self; key = key; value = value } ∷ []));
  get_code = none;
}

abbrev ctx : ExecutionContext
ctx = record { caller = 1 ∷ []; self = 2 ∷ []; value = 0; gas_limit = 300; depth = 0 }

abbrev word : ℕ → List ℕ → List ℕ
word v rest = 0x10 ∷ v ∷ 0 ∷ 0 ∷ 0 ∷ 0 ∷ 0 ∷ 0 ∷ 0 ∷ rest

-- PUSH_U64 0 (four times), PUSH_U64 5, PUSH_U64 2, ADD, SSTORE, STOP.
abbrev stores : Bytecode
stores = record {
  version = 1;
  code = word 0 (word 0 (word 0 (word 0 (word 5 (word 2 (0x20 ∷ 0x51 ∷ 0x00 ∷ []))))));
}

-- The same with REVERT for STOP.
abbrev reverts : Bytecode
reverts = record {
  version = 1;
  code = word 0 (word 0 (word 0 (word 0 (word 5 (word 2 (0x20 ∷ 0x51 ∷ 0x01 ∷ []))))));
}

abbrev stored : VmResult
stored = record {
  status = Status.ok;
  gas_used = 208;
  writes =
      record { contract = 2 ∷ []; key = replicate 32 0; value = 7 ∷ 0 ∷ 0 ∷ 0 ∷ 0 ∷ 0 ∷ 0 ∷ 0 ∷ [] }
      ∷ [];
  events = [];
}

abbrev reverted : VmResult
reverted = record { status = Status.revert; gas_used = 208; writes = []; events = [] }

execute-stores : execute 3 limits digest host stores ctx ≡ finished stored
unfolding execute validate_offsets inst_offsets op_at op_of operand_size jumps_ok contains run round
    exec_known consume op_gas exec_op exec_push_u64 exec_binary binary_value checked_add_u64 push
    exec_sstore top_hash finish read_u64_le append_u64_le
execute-stores = refl

execute-reverts : execute 3 limits digest host reverts ctx ≡ finished reverted
unfolding execute validate_offsets inst_offsets op_at op_of operand_size jumps_ok contains run round
    exec_known consume op_gas exec_op exec_push_u64 exec_binary binary_value checked_add_u64 push
    exec_sstore top_hash finish read_u64_le append_u64_le
execute-reverts = refl

-- PUSH_U64 2 ^ 64 - 1, MLOAD: the bounds test passes, and the read is far outside of the memory.
abbrev wild_load : Bytecode
wild_load = record {
  version = 1;
  code = 0x10 ∷ 255 ∷ 255 ∷ 255 ∷ 255 ∷ 255 ∷ 255 ∷ 255 ∷ 255 ∷ 0x40 ∷ [];
}

execute-wild_load : execute 3 limits digest host wild_load ctx ≡ Execution.fault memory_access
unfolding execute validate_offsets inst_offsets op_at op_of operand_size jumps_ok contains run round
    exec_known consume op_gas exec_op exec_push_u64 push exec_mload finish read_u64_le
execute-wild_load = refl

execute_contained_example :
    (208 ≤ 300)
    × (Status.revert ≢ Status.ok
        → (◌≡◌ {A = List StorageWrite} [] []) × (◌≡◌ {A = List Event} [] []))
execute_contained_example =
    execute_contained limits digest host 3 reverts ctx reverted digest_size (omega arith)
      execute-reverts

execute-Ends_example : Ends (execute 3 limits digest host wild_load ctx)
execute-Ends_example = execute-Ends limits digest host 3 wild_load ctx (omega arith) (omega arith)

abbrev offsets : List ℕ
offsets = 0 ∷ 9 ∷ 18 ∷ 27 ∷ 36 ∷ 45 ∷ 54 ∷ 55 ∷ 56 ∷ []

validate_offsets-stores : validate_offsets limits stores ≡ some offsets
unfolding validate_offsets inst_offsets op_at op_of operand_size jumps_ok contains
validate_offsets-stores = refl

validate_offsets-IsValidated_example : IsValidated stores.code offsets
validate_offsets-IsValidated_example =
    validate_offsets-IsValidated limits stores offsets validate_offsets-stores

abbrev wild_state : VmState
wild_state = record {
  pc = 10;
  steps = 2;
  gas_used = 4;
  stack = (2 ^ 64 - 1) ∷ 7 ∷ [];
  mem = replicate 16 0;
  pending_writes = [];
  events = [];
}

exec_mload_fault_example :
    (exec_mload limits wild_state ≡ Outcome.fault memory_access) ↔ (2 ^ 64 ≤ (2 ^ 64 - 1) + 8)
exec_mload_fault_example =
    exec_mload_fault limits wild_state (2 ^ 64 - 1) (7 ∷ []) refl (omega arith) (omega arith)
      (omega arith)

exec_mstore_fault_example :
    (exec_mstore wild_state ≡ Outcome.fault memory_access) ↔ (2 ^ 64 ≤ (2 ^ 64 - 1) + 8)
exec_mstore_fault_example =
    exec_mstore_fault wild_state (2 ^ 64 - 1) 7 [] refl (omega arith) (omega arith) (omega arith)

decode_bytecode-encode_bytecode_example : decode_bytecode (encode_bytecode stores) ≡ some stores
decode_bytecode-encode_bytecode_example =
    decode_bytecode-encode_bytecode stores (omega arith) (omega arith)
