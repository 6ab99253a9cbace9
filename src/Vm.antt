-- ===== src/Vm.antt =====
-- The contract virtual machine: include/rand/vm.hpp and src/vm.cpp.
pub mod Types
pub mod Bytecode
pub mod Validate
pub mod Step
pub mod Execute
pub mod Bounds
pub mod Safety
pub mod MemoryTests
pub mod RoundTrip
mod Runs
