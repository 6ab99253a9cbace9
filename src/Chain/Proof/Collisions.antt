-- ===== src/Chain/Proof/Collisions.antt =====
-- The inputs that a Merkle tree and the check of a path hash, and collisions between the two.
use randioum.Base.{
  ℕ, zero, suc, ◌/◌, ◌%◌, ◌<◌, ◌≡◌, ◌≢◌, ◌⊎◌, inl, inr, refl, sym, ap, ◌∙◌, leb, ◌==◌,
  if◌then◌else◌, List, [], ◌∷◌, ◌++◌, length, get_or, take, drop, take-append, drop-append, All,
  All-append, arith,
}
use randioum.Base.Text.{same_bytes_or_ne}
use randioum.Codec.Bytes.{IsByte}
use randioum.Hash.Sha256.{sha256}
use randioum.Hash.Sha256.Reference.{sha256-IsHash}
use randioum.Chain.Merkle.{Hash256, next_layer}
use randioum.Chain.Proof.{merkle_parent}

-- 32 bytes.
abbrev pub IsHash : Hash256 → Type 0
IsHash h = (length h ≡ 32) × All IsByte h

abbrev pub Among : List ℕ → List (List ℕ) → Type 0
Among x [] = ⊥
Among x (y ∷ ys) = (x ≡ y) ⊎ Among x ys

-- The two hashes that are hashed at each step of a path.
abbrev pub path_inputs : Hash256 → ℕ → List Hash256 → List (List ℕ)
path_inputs cur idx [] = []
path_inputs cur idx (sib ∷ siblings) =
    (if idx % 2 == 0 then cur ++ sib else sib ++ cur)
    ∷ path_inputs (if idx % 2 == 0 then merkle_parent cur sib else merkle_parent sib cur) (idx / 2)
        siblings

-- The pairs of hashes of a layer.
abbrev pub layer_inputs : List Hash256 → List (List ℕ)
layer_inputs layer = next_layer (λ left right. left ++ right) layer

-- The pairs of hashes of all layers of a tree.
abbrev pub tree_inputs : ℕ → List Hash256 → List (List ℕ)
tree_inputs zero layer = []
tree_inputs (suc fuel) layer =
    let rest = tree_inputs fuel (next_layer merkle_parent layer) in
    if leb (length layer) 1 then [] else layer_inputs layer ++ rest

-- An input of the one list and another input of the other list, of bytes, with one hash.
pub record Collision (checked hashed : List (List ℕ)) : Type 0 where
  pub first : List ℕ
  pub second : List ℕ
  pub is_checked : Among first checked
  pub is_hashed : Among second hashed
  pub first_bytes : All IsByte first
  pub second_bytes : All IsByte second
  pub differ : first ≢ second
  pub same_hash : sha256 first ≡ sha256 second

pub Among-left : (x : List ℕ) (xs ys : List (List ℕ)) → Among x xs → Among x (xs ++ ys)
Among-left x [] ys p = absurd p
Among-left x (y ∷ xs) ys (inl e) = inl e
Among-left x (y ∷ xs) ys (inr p) = inr (Among-left x xs ys p)

pub Among-right : (x : List ℕ) (xs ys : List (List ℕ)) → Among x ys → Among x (xs ++ ys)
Among-right x [] ys p = p
Among-right x (y ∷ xs) ys p = inr (Among-right x xs ys p)

pub Among-get_or : (xs : List (List ℕ)) (i : ℕ) → i < length xs → Among (get_or [] xs i) xs
Among-get_or [] i lt = elim lt [ ]
Among-get_or (x ∷ xs) zero lt = inl refl
Among-get_or (x ∷ xs) (suc i) lt = inr (Among-get_or xs i (omega (arith, lt)))

-- More inputs on either side.
pub Collision-widen :
    (checked checked' hashed hashed' : List (List ℕ))
    → ((x : List ℕ) → Among x checked → Among x checked')
    → ((x : List ℕ) → Among x hashed → Among x hashed')
    → Collision checked hashed
    → Collision checked' hashed'
Collision-widen checked checked' hashed hashed' p q c = record {
  first = c.first;
  second = c.second;
  is_checked = p c.first c.is_checked;
  is_hashed = q c.second c.is_hashed;
  first_bytes = c.first_bytes;
  second_bytes = c.second_bytes;
  differ = c.differ;
  same_hash = c.same_hash;
}

-- Two inputs with one hash are one input, or collide.
pub sha256_split :
    (checked hashed : List (List ℕ)) (x y : List ℕ)
    → Among x checked
    → Among y hashed
    → All IsByte x
    → All IsByte y
    → sha256 x ≡ sha256 y
    → (x ≡ y) ⊎ Collision checked hashed
sha256_split checked hashed x y p q xs ys h = elim (same_bytes_or_ne x y) [
  | inl e ↦ inl e
  | inr ne ↦ inr (record {
    first = x;
    second = y;
    is_checked = p;
    is_hashed = q;
    first_bytes = xs;
    second_bytes = ys;
    differ = ne;
    same_hash = h;
  })
]

pub merkle_parent_split :
    (checked hashed : List (List ℕ)) (a b c d : Hash256)
    → Among (a ++ b) checked
    → Among (c ++ d) hashed
    → IsHash a
    → IsHash b
    → IsHash c
    → IsHash d
    → merkle_parent a b ≡ merkle_parent c d
    → ((a ≡ c) × (b ≡ d)) ⊎ Collision checked hashed
unfolding merkle_parent
merkle_parent_split checked hashed a b c d p q ha hb hc hd h =
    elim (sha256_split checked hashed (a ++ b) (c ++ d) p q (All-append IsByte a b ha.1 hb.1)
      (All-append IsByte c d hc.1 hd.1) h) [
        | inl e ↦ inl (
          sym (take-append a b 32 (sym ha.0)) ∙ ap (take 32) e ∙ take-append c d 32 (sym hc.0),
          sym (drop-append a b 32 (sym ha.0)) ∙ ap (drop 32) e ∙ drop-append c d 32 (sym hc.0),
        )
        | inr bad ↦ inr bad
      ]

pub merkle_parent-IsHash : (a b : Hash256) → IsHash (merkle_parent a b)
unfolding merkle_parent
merkle_parent-IsHash a b = sha256-IsHash (a ++ b)
