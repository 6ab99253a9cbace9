-- ===== src/Chain/Proof/Complete.antt =====
-- The shape of a Merkle proof, and the proofs that `build_merkle_proof` of src/cli.cpp makes.
use mathlib.Core.Option.{none-ne-some}
use randioum.Base.{
  ℕ, suc, ◌^◌, ◌≤◌, ◌<◌, ◌≡◌, refl, sym, ap, ap₂, ◌∙◌, true, false, if-elim, leb, ◌==◌,
  if◌then◌else◌, List, [], ◌∷◌, length, get_or, Option, none, some, some-eq, arith,
}
use randioum.Base.Text.{same_bytes, same_bytes_refl}
use randioum.Hash.Sha256.{sha256}
use randioum.Chain.Merkle.{Hash256, merkle_loop, collect_siblings, merkle_root_hashes}
use randioum.Chain.Merkle.Paths.{collect-path_root}
use randioum.Chain.Proof.{
  MerkleProof, merkle_depth, merkle_parent, map_option, validate_merkle_proof_shape, root_of_shape,
  compute_merkle_root, is_root, verify_merkle_root, check_depth, build_merkle_proof,
}
use randioum.Chain.Proof.Depth.{IsDepth-unique, merkle_depth-IsDepth}
use randioum.Chain.Proof.Inclusion.{merkle_parent-sha256_2x32, collect-IsDepth}

pub positive : (n : ℕ) → (suc n == 0) ≡ false
positive n = ground arith

-- The root of a list of hashes, with the parent that the proofs use.
pub root_by_parent :
    (leaves : List Hash256)
    → 1 ≤ length leaves
    → merkle_root_hashes leaves ≡ get_or [] (merkle_loop merkle_parent (length leaves) leaves) 0
unfolding merkle_root_hashes
root_by_parent [] some_leaf = elim some_leaf [ ]
root_by_parent (x ∷ leaves) some_leaf =
    ap₂
      (λ b f.
        if b then sha256 [] else get_or [] (merkle_loop f (suc (length leaves)) (x ∷ leaves)) 0)
      (positive (length leaves)) merkle_parent-sha256_2x32

-- A proof has the right shape where its index is inside and it has a sibling for each level.
pub shape_holds :
    (p : MerkleProof)
    → p.leaf_index < p.leaf_count
    → merkle_depth p.leaf_count ≡ some (length p.siblings)
    → validate_merkle_proof_shape p ≡ some true
unfolding validate_merkle_proof_shape
shape_holds p inside depth =
    if-elim (λ o. o ≡ some true) (p.leaf_count == 0) (λ t. absurd (ground arith))
      (λ f.
        if-elim (λ o. o ≡ some true) (leb p.leaf_count p.leaf_index) (λ t. absurd (ground arith))
          (λ g. ap (map_option (λ d. length p.siblings == d)) depth ∙ ap some (ground arith)))

pub shape_inv :
    (p : MerkleProof)
    → validate_merkle_proof_shape p ≡ some true
    → (p.leaf_index < p.leaf_count) × (merkle_depth p.leaf_count ≡ some (length p.siblings))
unfolding validate_merkle_proof_shape
shape_inv p =
    if-elim
      (λ o.
        o ≡ some true
        → (p.leaf_index < p.leaf_count) × (merkle_depth p.leaf_count ≡ some (length p.siblings)))
      (p.leaf_count == 0) (λ t h. no_proof (some-eq h))
      (λ f.
        if-elim
          (λ o.
            o ≡ some true
            → (p.leaf_index < p.leaf_count)
              × (merkle_depth p.leaf_count ≡ some (length p.siblings)))
          (leb p.leaf_count p.leaf_index) (λ t h. no_proof (some-eq h))
          (λ g h. (not_leb→lt p.leaf_count p.leaf_index g, read (merkle_depth p.leaf_count) h)))
  where
    no_proof : {A : Type 0} → false ≡ true → A
    no_proof e = absurd (ground arith)

    not_leb→lt : (a b : ℕ) → leb a b ≡ false → b < a
    not_leb→lt a b h = ground arith

    same : (a b : ℕ) → (a == b) ≡ true → b ≡ a
    same a b h = ground arith

    read :
        (o : Option ℕ)
        → map_option (λ d. length p.siblings == d) o ≡ some true
        → o ≡ some (length p.siblings)
    read none h = absurd (none-ne-some true h)
    read (some d) h = ap some (same (length p.siblings) d (some-eq h))

-- The proof that is built has the right shape, and leads to the root.
built_verifies :
    (leaves : List Hash256) (i d : ℕ)
    → i < length leaves
    → merkle_depth (length leaves) ≡ some d
    → d ≡ length (collect_siblings merkle_parent (length leaves) leaves i)
    → let mp : MerkleProof = record {
      leaf_index = i;
      leaf_count = length leaves;
      siblings = collect_siblings merkle_parent (length leaves) leaves i;
    } in
      verify_merkle_root (merkle_root_hashes leaves) (get_or [] leaves i) mp ≡ some true
unfolding verify_merkle_root compute_merkle_root
built_verifies leaves i d inside depth same =
    let path = collect_siblings merkle_parent (length leaves) leaves i in
    let mp : MerkleProof = record { leaf_index = i; leaf_count = length leaves; siblings = path } in
    ap
      (λ s.
        map_option (is_root (merkle_root_hashes leaves))
          (map_option (root_of_shape (get_or [] leaves i) mp) s))
      (shape_holds mp inside (depth ∙ ap some same))
    ∙ ap (λ r. some (same_bytes r (merkle_root_hashes leaves)))
        (collect-path_root merkle_parent (length leaves) leaves i (omega arith) inside
          ∙ sym (root_by_parent leaves (omega (arith, inside))))
    ∙ ap some (same_bytes_refl (merkle_root_hashes leaves))

build_some :
    (leaves : List Hash256) (i d : ℕ)
    → i < length leaves
    → merkle_depth (length leaves) ≡ some d
    → length (collect_siblings merkle_parent (length leaves) leaves i) ≡ d
    → build_merkle_proof leaves i
      ≡ some (
          some (record {
            leaf_index = i;
            leaf_count = length leaves;
            siblings = collect_siblings merkle_parent (length leaves) leaves i;
          }))
unfolding build_merkle_proof
build_some leaves i d inside depth same =
    let path = collect_siblings merkle_parent (length leaves) leaves i in
    let mp : MerkleProof = record { leaf_index = i; leaf_count = length leaves; siblings = path } in
    if-elim (λ o. o ≡ some (some mp)) (length leaves == 0) (λ t. absurd (ground arith))
      (λ f.
        if-elim (λ o. o ≡ some (some mp)) (leb (length leaves) i) (λ t. absurd (ground arith))
          (λ g.
            ap (map_option (check_depth mp)) depth
            ∙ ap some (
                if-elim (λ o. o ≡ some mp) (length path == d) (λ t. refl)
                  (λ n. absurd (ground arith)))))

-- For each leaf of a list of at most 2 ^ 63 hashes, `build_merkle_proof` gives a proof of that index
-- and that number of leaves, and `verify_merkle_root` accepts it for the list's root and the leaf.
pub build_merkle_proof-verifies :
    (leaves : List Hash256) (i : ℕ)
    → i < length leaves
    → length leaves ≤ 2 ^ 63
    → (mp : MerkleProof) × (build_merkle_proof leaves i ≡ some (some mp))
      × (mp.leaf_index ≡ i)
      × (mp.leaf_count ≡ length leaves)
      × (verify_merkle_root (merkle_root_hashes leaves) (get_or [] leaves i) mp ≡ some true)
build_merkle_proof-verifies leaves i inside fits =
    let path = collect_siblings merkle_parent (length leaves) leaves i in
    let (d, depth, good) = merkle_depth-IsDepth (length leaves) fits in
    let same =
      IsDepth-unique (length leaves) d (length path) good
        (collect-IsDepth (length leaves) leaves i (omega arith) (omega (arith, inside))) in
    (
      record { leaf_index = i; leaf_count = length leaves; siblings = path },
      build_some leaves i d inside depth (sym same),
      refl,
      refl,
      built_verifies leaves i d inside depth same,
    )
