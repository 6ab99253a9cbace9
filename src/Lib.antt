-- ===== src/Lib.antt =====
-- Randioum: the deterministic core of a blockchain node, as definitions translated from its C++
-- sources and theorems about them.
--
-- The program. Transactions and blocks travel and are stored in canonical little-endian byte
-- formats (src/tx_codec.cpp, src/block_codec.cpp, src/block_full_codec.cpp). A contract's bytecode
-- is validated and then run by a gas-metered stack machine (src/vm.cpp). Some contracts are built
-- in: the market maker of src/module119_amm_apply.cpp swaps two tokens against a pool. A token
-- bucket limits what a peer may send (src/net_rate.cpp). Validators bond stake in a ledger
-- (src/staking.cpp). Transactions and blocks are named by their SHA-256 hashes (src/sha256.cpp), a
-- block commits to its transactions by a Merkle root (src/block.cpp, src/validate.cpp), and a light
-- client checks proofs against such roots (src/proof.cpp). Validators vote on proposals, and votes
-- with more than two thirds of the stake certify a block (src/validator.cpp, src/consensus.cpp).
-- Transactions wait in a pool that evicts the worst ones when it is full (src/mempool.cpp).
--
-- The files, and the code that each models.
--   Base, Result: library names passed on, tests, lists, bitwise "or"; status codes as errors.
--   Codec.Bytes: `read_u32_le`, `read_u64_le`, `append_u32_le`, `append_u64_le` of
--     src/tx_codec.cpp, of which src/block_codec.cpp, src/block_full_codec.cpp, src/tx.cpp and
--     src/vm.cpp hold copies. The bitwise "or" of the readers is the native one.
--   Codec.Tx: include/rand/tx.hpp, src/tx_codec.cpp, and `serialize_tx` of src/tx.cpp.
--   Codec.Header: include/rand/block.hpp and src/block_codec.cpp.
--   Codec.Block: src/block_full_codec.cpp. Codec.Varint: src/varint.cpp.
--   Vm.Types, Vm.Bytecode, Vm.Validate: include/rand/vm.hpp; `decode_bytecode`, `encode_bytecode`
--     and `validate_` of src/vm.cpp.
--   Vm.Step and its children: the cases of the switch in `VM::execute`, a definition for each.
--   Vm.Execute: the loop and `VM::execute`, nested calls included.
--   Vm.Bounds, Vm.Safety, Vm.MemoryTests, Vm.RoundTrip: theorems about the machine.
--   Base.Text: `to_hex` of src/sha256.cpp, and decimal digits.
--   Amm.Key, Amm.Store: the storage keys of src/module119_amm_apply.cpp, its reads and its list of
--     changes, and `token_transfer_`. Amm.Sqrt: `isqrt_u128_`.
--   Amm.Pool, Amm.Liquidity, Amm.Swap, Amm.Apply: the operations of `amm119_apply`, and their
--     dispatch. Their children, and Amm.Hanging, have theorems about them.
--   Net.Rate: the token bucket of src/net_rate.cpp; Net.Rate.Budget: what it grants.
--   Staking: the ledger of src/staking.cpp; Staking.Unbonding: what unbonding does to a position.
--   Hash.Words, Hash.Sha256: src/sha256.cpp. Hash.Sha256.Stream, Hash.Sha256.Reference: the
--     streaming code against SHA-256 of a whole input.
--   Chain.Merkle: the Merkle trees of src/block.cpp, src/state.cpp and src/cli.cpp. Chain.Block:
--     `txid`, src/block.cpp and src/validate.cpp. Chain.Proof: the checks of src/proof.cpp, and
--     `build_merkle_proof` of src/cli.cpp. Their children have theorems about them.
--   Consensus.Keys: src/validator.cpp. Consensus.Core: the state of src/consensus.cpp, its leaders,
--     digests and certificates. Consensus.Events: its handlers. Their children have theorems.
--   Mempool.Fees, Mempool.Pool, Mempool.Eviction: src/mempool.cpp without its two listings.
--     Mempool.Order, Mempool.Bids: theorems about its keys and its fees. Mempool.Counts,
--     Mempool.Evicted, Mempool.Sound, Mempool.Caps, Mempool.Changes: what its counters stand for,
--     through a round of the eviction, through `add` and `remove`, and through any calls of them.
--   Base.Maps: hash maps, texts and std::sort, as src/validator.cpp and src/consensus.cpp use them.
--   Codec.Runs, Vm.Runs, Amm.Runs, Net.Rate.Runs, Staking.Runs, Hash.Runs, Chain.Runs,
--     Consensus.Runs, Mempool.Runs: runs on concrete inputs.
--
-- Conventions. A byte vector, a span and a 256-bit hash are lists of numbers below 256, an
-- unsigned integer is a native number with its wrap-around written out, `size_t` has 64 bits, and
-- an enumeration of status codes is the error type of a `Result`. The counters of
-- include/rand/perf.hpp, which no result depends on, are left out. `crypto::sha256` and the
-- callbacks of `vm::Host` are parameters of the machine, and `crypto::sha256` of the market maker.
-- The callbacks of `ConsensusCore::Options` are functions of their arguments; `is_halted` has none,
-- and its answers, which may differ from call to call, are an argument of the handlers.
--
-- Fuel. The two passes of `validate_` have one round more than the code has bytes, and each round
-- takes a byte at least. The machine's loop has `max_steps + 2` rounds, since the instruction
-- after `max_steps + 1` others traps. Nested executions have a level for each depth up to the one
-- that is refused. Running out of loop or level fuel is the outcome `stuck`, apart from every
-- outcome of the program. The square root of the market maker takes its number of rounds as an
-- argument; x + 2 are enough for a number x on which the loop ends at all. A read or write outside
-- of the code or of the memory, which C++ leaves undefined, is the outcome `fault`. The loop of
-- SHA-256 has a round for each byte of its input, and takes 64 bytes in each; the loops of a Merkle
-- tree have a round for each hash, and each layer has fewer hashes than the one before. The loop of
-- `merkle_depth` has 64 rounds, which suffice wherever it ends; where it does not, `none` says so.
-- The eviction of the pool has a round for each key and one more, since each round takes a key
-- away. A varint has ten rounds of seven bits.
--
-- Not modelled: the state and its execution engine, storage, the network, the formats of proofs,
-- the command line, the simulators and benchmarks, and the web tools.
pub mod Base
pub mod Result
pub mod Codec
pub mod Vm
pub mod Amm
pub mod Net
pub mod Staking
pub mod Hash
pub mod Chain
pub mod Consensus
pub mod Mempool
