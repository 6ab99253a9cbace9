-- ===== src/Base/Maps.antt =====
-- Maps as lists of entries, with a test for equal keys, and the order of texts.
use randioum.Base.Tests.{ltb, if◌then◌else◌}
use Prim.Native.Nat.{ℕ}
use mathlib.Core.Bool.{Bool, true, false}
use mathlib.Core.List.{List, [], ◌∷◌}
use mathlib.Core.Option.{Option, none, some}

abbrev pub lookup : {K V : Type 0} → (K → K → Bool) → K → List (K × V) → Option V
lookup same k [] = none
lookup same k ((key, v) ∷ entries) =
    let rest = lookup same k entries in if same k key then some v else rest

-- Sets the entry of a key, which is new if there is none.
abbrev pub insert : {K V : Type 0} → (K → K → Bool) → K → V → List (K × V) → List (K × V)
insert same k v [] = (k, v) ∷ []
insert same k v ((key, old) ∷ entries) =
    let rest = insert same k v entries in
    if same k key then (key, v) ∷ entries else (key, old) ∷ rest

abbrev pub or_default : {V : Type 0} → V → Option V → V
or_default d none = d
or_default d (some v) = v

-- `<` on `std::string`.
abbrev pub text_ltb : List ℕ → List ℕ → Bool
text_ltb xs [] = false
text_ltb [] (y ∷ ys) = true
text_ltb (x ∷ xs) (y ∷ ys) =
    let rest = text_ltb xs ys in if ltb x y then true else if ltb y x then false else rest

unfoldable pub insert_sorted : List ℕ → List (List ℕ) → List (List ℕ)
insert_sorted x [] = x ∷ []
insert_sorted x (y ∷ ys) =
    let rest = insert_sorted x ys in if text_ltb x y then x ∷ y ∷ ys else y ∷ rest

unfoldable pub sort : List (List ℕ) → List (List ℕ)
unfolding insert_sorted
sort [] = []
sort (x ∷ xs) = insert_sorted x (sort xs)
