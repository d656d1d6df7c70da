-- ===== src/Placement/Tests.antt =====
-- The choice of nodes at concrete inputs, over a digest that keeps the bytes' sum.
use stopan.Prelude.{
  ℕ, zero, suc, take, All, ◌+◌, ◌≡◌, refl, ◌≢◌, List, [], ◌∷◌, map, Option, some, ap, arith, Text,
  Bytes, codes, get_elem?,
}
use stopan.Placement.{Item, item_lt, hrw_score, hrw_top_k_node_ids}
use stopan.Placement.Choice.{
  hrw_top_k_node_ids-perm, hrw_top_k_node_ids-remove, hrw_top_k_node_ids_best, named,
}
use stopan.Sorting.TopK.{IsDescending}
use mathlib.Core.List.{Perm}
use mathlib.Core.List.Perm

abbrev sum_bytes : Bytes → ℕ
sum_bytes [] = 0
sum_bytes (b ∷ bs) = b + sum_bytes bs

abbrev pub toy_digest : Bytes → Bytes
toy_digest bs = sum_bytes bs ∷ []

abbrev three_nodes : List Text
three_nodes = codes "c" ∷ codes "" ∷ codes "a" ∷ codes "b" ∷ []

two_of_three :
    hrw_top_k_node_ids toy_digest (codes "x") (codes "s") three_nodes 2 ≡ codes "c" ∷ codes "b" ∷ []
unfolding hrw_top_k_node_ids
two_of_three = refl

swapped : Perm (codes "a" ∷ codes "b" ∷ []) (codes "b" ∷ codes "a" ∷ [])
swapped = Perm.swap (codes "b") (codes "a") []

abbrev first_code : Option Text → ℕ
first_code (some (c ∷ t)) = c
first_code _ = 0

not_a : (i : ℕ) → get_elem? (codes "c" ∷ codes "b" ∷ []) i ≢ some (codes "a")
not_a zero e = let h : ◌≡◌ {A = ℕ} 99 97 = ap first_code e in omega arith
not_a (suc zero) e = let h : ◌≡◌ {A = ℕ} 98 97 = ap first_code e in omega arith
not_a (suc (suc i)) e = let h : ◌≡◌ {A = ℕ} 0 97 = ap first_code e in omega arith

hrw_top_k_node_ids_best_example :
    (l : List Item) × (hrw_top_k_node_ids toy_digest (codes "x") (codes "s") three_nodes 2
      ≡ map (λ i. i.1) (take 2 l))
    × IsDescending item_lt l
    × Perm (map (λ i. i.1) l) (named three_nodes)
    × All (λ i. i.0 ≡ hrw_score toy_digest (codes "x") i.1 (codes "s")) l
hrw_top_k_node_ids_best_example =
    hrw_top_k_node_ids_best toy_digest (codes "x") (codes "s") three_nodes 2

hrw_top_k_node_ids-perm_example :
    hrw_top_k_node_ids toy_digest (codes "x") (codes "s") (codes "a" ∷ codes "b" ∷ []) 1
    ≡ hrw_top_k_node_ids toy_digest (codes "x") (codes "s") (codes "b" ∷ codes "a" ∷ []) 1
hrw_top_k_node_ids-perm_example =
    hrw_top_k_node_ids-perm toy_digest (codes "x") (codes "s") (codes "a" ∷ codes "b" ∷ [])
      (codes "b" ∷ codes "a" ∷ []) 1 swapped

-- The node `a` is not among the best two.
hrw_top_k_node_ids-remove_example :
    hrw_top_k_node_ids toy_digest
      (codes "x")
      (codes "s")
      (codes "c" ∷ codes "" ∷ codes "a" ∷ codes "b" ∷ [])
      2
    ≡ hrw_top_k_node_ids toy_digest
        (codes "x")
        (codes "s")
        (codes "c" ∷ codes "" ∷ codes "b" ∷ [])
        2
hrw_top_k_node_ids-remove_example =
    hrw_top_k_node_ids-remove toy_digest (codes "x") (codes "s") (codes "c" ∷ codes "" ∷ [])
      (codes "b" ∷ []) (codes "a") 2 (λ i e. not_a i (rw (← two_of_three) e))
