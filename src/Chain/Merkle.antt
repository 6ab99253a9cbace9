-- ===== src/Chain/Merkle.antt =====
-- The Merkle tree over a list of hashes: the loops of `merkle_root` in src/block.cpp, of
-- `merkle_root_hashes` in src/state.cpp, and of `build_merkle_proof` in src/cli.cpp. The first two
-- hash a pair by `crypto::sha256_2x32`, and the third by `merkle_parent` of src/proof.cpp.
pub mod Layers
pub mod Paths
use randioum.Base.{
  ℕ, zero, suc, ◌+◌, ◌-◌, ◌/◌, ◌%◌, ltb, leb, ◌==◌, if◌then◌else◌, List, [], ◌∷◌, length, get_or,
}
use randioum.Hash.Sha256.{sha256, sha256_2x32}

abbrev pub Hash256 : Type 0
Hash256 = List ℕ

-- The inner loop: an odd hash out is paired with itself.
unfoldable pub next_layer : (Hash256 → Hash256 → Hash256) → List Hash256 → List Hash256
next_layer parent [] = []
next_layer parent (x ∷ []) = parent x x ∷ []
next_layer parent (x ∷ y ∷ rest) = parent x y ∷ next_layer parent rest

-- The outer loop. A layer has fewer hashes than the one below it, so their number bounds the rounds.
unfoldable pub merkle_loop : (Hash256 → Hash256 → Hash256) → ℕ → List Hash256 → List Hash256
merkle_loop parent zero layer = layer
merkle_loop parent (suc fuel) layer =
    let rest = merkle_loop parent fuel (next_layer parent layer) in
    if leb (length layer) 1 then layer else rest

unfoldable pub merkle_root_hashes : List Hash256 → Hash256
merkle_root_hashes layer =
    if length layer == 0
    then sha256 []
    else get_or [] (merkle_loop sha256_2x32 (length layer) layer) 0

-- The hash beside the one at an index.
abbrev pub sibling : List Hash256 → ℕ → Hash256
sibling layer idx =
    if idx % 2 == 0
    then if ltb (idx + 1) (length layer) then get_or [] layer (idx + 1) else get_or [] layer idx
    else get_or [] layer (idx - 1)

-- The siblings that `build_merkle_proof` collects on the way to the root.
unfoldable pub collect_siblings :
    (Hash256 → Hash256 → Hash256) → ℕ → List Hash256 → ℕ → List Hash256
collect_siblings parent zero layer idx = []
collect_siblings parent (suc fuel) layer idx =
    let rest = collect_siblings parent fuel (next_layer parent layer) (idx / 2) in
    if leb (length layer) 1 then [] else sibling layer idx ∷ rest

-- The loop of `compute_merkle_root` in src/proof.cpp.
unfoldable pub path_root : (Hash256 → Hash256 → Hash256) → Hash256 → ℕ → List Hash256 → Hash256
path_root parent cur idx [] = cur
path_root parent cur idx (sib ∷ siblings) =
    path_root parent (if idx % 2 == 0 then parent cur sib else parent sib cur) (idx / 2) siblings
