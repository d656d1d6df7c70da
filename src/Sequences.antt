-- ===== src/Sequences.antt =====
-- common/sequences.py, for sequences of texts.
pub mod Unique
use stopan.Prelude.{
  Bool, List, [], ◌∷◌, if◌then◌else◌, Text, contains, Dict, Option, none, some, lookup, map,
}

-- `dict.fromkeys`: the items that are not among the earlier ones, `seen`.
unfoldable pub unique_onto : List Text → List Text → List Text
unique_onto seen [] = []
unique_onto seen (x ∷ xs) =
    let passed = unique_onto seen xs in
    let taken = unique_onto (x ∷ seen) xs in if contains x seen then passed else x ∷ taken

unfoldable pub ordered_unique : List Text → List Text
unfolding unique_onto
ordered_unique items = unique_onto [] items

-- The loop of `ordered_unique_by`: the items whose keys are not among the earlier ones.
unfoldable pub unique_by_onto {ℓ} : {T : Type ℓ} → (T → Text) → List Text → List T → List T
unique_by_onto key seen [] = []
unique_by_onto key seen (x ∷ xs) =
    let passed = unique_by_onto key seen xs in
    let taken = unique_by_onto key (key x ∷ seen) xs in
    if contains (key x) seen then passed else x ∷ taken

unfoldable pub ordered_unique_by {ℓ} : {T : Type ℓ} → List T → (T → Text) → List T
unfolding unique_by_onto
ordered_unique_by items key = unique_by_onto key [] items
