-- ===== src/Vm/Types.antt =====
-- The types of include/rand/vm.hpp, and the state of the loop in `VM::execute`.
-- Addresses, hashes and values are lists of bytes. A `std::function` may be empty: an Option.
use randioum.Base.{ℕ, List, Option}

pub record Bytecode : Type 0 where
  pub version : ℕ
  pub code : List ℕ

pub record ValidationLimits : Type 0 where
  pub max_code_bytes : ℕ
  pub max_stack_items : ℕ
  pub max_memory_bytes : ℕ
  pub max_steps : ℕ
  pub max_call_depth : ℕ

pub data Status : Type 0 where
  ok revert out_of_gas invalid_bytecode trap : Status

pub record StorageWrite : Type 0 where
  pub contract : List ℕ
  pub key : List ℕ
  pub value : List ℕ

pub record Event : Type 0 where
  pub contract : List ℕ
  pub topic : List ℕ
  pub data_bytes : List ℕ

-- `Result` of vm.hpp; its `return_data` is never written.
pub record VmResult : Type 0 where
  pub status : Status
  pub gas_used : ℕ
  pub writes : List StorageWrite
  pub events : List Event

-- `caller` and `value` are never read by the machine.
pub record ExecutionContext : Type 0 where
  pub caller : List ℕ
  pub self : List ℕ
  pub value : ℕ
  pub gas_limit : ℕ
  pub depth : ℕ

-- The callbacks that src/vm.cpp calls.
pub record Host : Type 0 where
  pub storage_get : Option (List ℕ → List ℕ → Option (List ℕ))
  pub storage_set : Option (List StorageWrite → List ℕ → List ℕ → List ℕ → List StorageWrite)
  pub get_code : Option (List ℕ → Option (List ℕ))

pub data Op : Type 0 where
  stop revert push_u64 push_bytes32 pop dup swap : Op
  add sub mul div mod_op eq lt gt : Op
  jmp jz mload mstore sha256_mem sload sstore emit call : Op

-- The local variables of `execute`. The stack's last element, its top, is the head of the list.
pub record VmState : Type 0 where
  pub pc : ℕ
  pub steps : ℕ
  pub gas_used : ℕ
  pub stack : List ℕ
  pub mem : List ℕ
  pub pending_writes : List StorageWrite
  pub events : List Event

-- Reads and writes outside of the code or the memory, which C++ leaves undefined.
pub data Fault : Type 0 where
  code_read memory_access : Fault

-- What one instruction, or the loop, leads to. `stuck` is no behaviour of the program: the model
-- ran out of fuel.
pub data Outcome : Type 0 where
  running : VmState → Outcome
  halted : Status → VmState → Outcome
  fault : Fault → Outcome
  stuck : Outcome

pub data Execution : Type 0 where
  finished : VmResult → Execution
  fault : Fault → Execution
  stuck : Execution
