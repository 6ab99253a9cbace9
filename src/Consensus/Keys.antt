-- ===== src/Consensus/Keys.antt =====
-- Keys and signatures of validators: include/rand/validator.hpp and src/validator.cpp. The maps of
-- a `ValidatorStore` are lists of entries.
use randioum.Base.{ℕ, Bool, List, [], ◌∷◌, ◌++◌, Option, none, some}
use randioum.Base.Text.{same_bytes}
use randioum.Base.Maps.{lookup, insert, sort}
use randioum.Hash.Sha256.{sha256}
use randioum.Chain.Merkle.{Hash256}

abbrev pub ValidatorId : Type 0
ValidatorId = List ℕ

pub record ValidatorKeypair : Type 0 where
  pub secret : Hash256
  pub pubkey : Hash256

abbrev pub from_secret : Hash256 → ValidatorKeypair
from_secret key = record { secret = key; pubkey = sha256 key }

unfoldable pub sign : ValidatorKeypair → List ℕ → Hash256
sign kp msg = sha256 (kp.pubkey ++ msg)

unfoldable pub verify_signature : Hash256 → List ℕ → Hash256 → Bool
verify_signature pubkey msg signature = same_bytes (sha256 (pubkey ++ msg)) signature

pub record SignatureBatchItem : Type 0 where
  pub pubkey : Hash256
  pub msg : List ℕ
  pub signature : Hash256

unfoldable pub verify_signatures_batch : List SignatureBatchItem → List Bool
verify_signatures_batch [] = []
verify_signatures_batch (it ∷ items) =
    verify_signature it.pubkey it.msg it.signature ∷ verify_signatures_batch items

pub record ValidatorStore : Type 0 where
  pub keys : List (ValidatorId × ValidatorKeypair)
  pub pubkeys : List (ValidatorId × Hash256)

unfoldable pub add_keypair : ValidatorStore → ValidatorId → ValidatorKeypair → ValidatorStore
add_keypair store id kp = record store { keys = insert same_bytes id kp store.keys }

unfoldable pub add_pubkey : ValidatorStore → ValidatorId → Hash256 → ValidatorStore
add_pubkey store id pk = record store { pubkeys = insert same_bytes id pk store.pubkeys }

unfoldable pub keypair : ValidatorStore → ValidatorId → Option ValidatorKeypair
keypair store id = lookup same_bytes id store.keys

unfoldable pub pubkey_of : ValidatorStore → ValidatorId → Option Hash256
pubkey_of store id = elim (lookup same_bytes id store.keys) [
  | none ↦ lookup same_bytes id store.pubkeys
  | some kp ↦ some kp.pubkey
]

abbrev pub keys_of : {V : Type 0} → List (ValidatorId × V) → List ValidatorId
keys_of [] = []
keys_of ((id, v) ∷ entries) = id ∷ keys_of entries

unfoldable pub ids : ValidatorStore → List ValidatorId
ids store = sort (keys_of store.keys ++ keys_of store.pubkeys)
