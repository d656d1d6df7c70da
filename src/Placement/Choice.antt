-- ===== src/Placement/Choice.antt =====
-- placement/hrw.py: the choice of `hrw_top_k_node_ids`.
use mathlib.Core.Logic.{∥∥₁_elim}
use mathlib.Core.List.{Perm, Permᴰ, perm_middle}
use mathlib.Core.List.Perm
use stopan.Prelude.{
  ℕ, zero, suc, ◌≡◌, refl, ap, ap₂, sym, ◌∙◌, inl, inr, false, List, [], ◌∷◌, ◌++◌, map, some,
  arith, length, take, All, get_elem?, Text, Bytes, Bool-cases, min, length-take, length-map, ◌≢◌,
}
use stopan.Sorting.{insert_by, sort_by, All-insert_by, length-insert_by}
use stopan.Sorting.TopK.{above, IsDescending, insert_by_comm, take-insert_by_others}
use stopan.Placement.{Item, item_lt, hrw_score, hrw_top_k_node_ids}
use stopan.Placement.Ranking.{
  item_order, ranked, ranking, ranking_onto-nil, hrw_loop_lem, IsDescending-ranking,
  IsDescending-take,
}

-- The candidates that have a name.
unfoldable pub named : List Text → List Text
named [] = []
named ([] ∷ ids) = named ids
named ((c ∷ cs) ∷ ids) = (c ∷ cs) ∷ named ids

items_set : IsSet (List Item)
items_set = hlevel

insert_by_head : (x : Item) (l : List Item) → All (λ y. item_lt x y ≡ false) l → ranked x l ≡ x ∷ l
unfolding insert_by
insert_by_head x [] h = refl
insert_by_head x (y ∷ l) h = elim (Bool-cases (item_lt y x)) [
  | inl e ↦ rw e
  | inr e ↦
      let same : x ≡ y = item_order.total x y h.0 e in
      rw e (rw (insert_by_head x l h.1) (ap₂ (λ a b. a ∷ b ∷ l) (sym same) same))
]

sort_by-IsDescending : (l : List Item) → IsDescending item_lt l → sort_by (above item_lt) l ≡ l
unfolding sort_by
sort_by-IsDescending [] h = refl
sort_by-IsDescending (x ∷ l) h = rw (sort_by-IsDescending l h.1) (insert_by_head x l h.0)

map-ranked :
    (x : Item) (l : List Item) → Perm (map (λ i. i.1) (ranked x l)) (x.1 ∷ map (λ i. i.1) l)
unfolding insert_by
map-ranked x [] = Perm.refl _
map-ranked x (y ∷ l) = elim (Bool-cases (item_lt y x)) [
  | inl e ↦ rw e (Perm.refl _)
  | inr e ↦ rw e (Perm.trans (Perm.cons y.1 (map-ranked x l)) (Perm.swap x.1 y.1 _))
]

module _ (digest : Bytes → Bytes) (chunk_hash salt : Text) where
  abbrev names : List Item → List Text
  names = map (λ i. i.1)

  top_k-ranking :
      (ids : List Text) (k : ℕ)
      → hrw_top_k_node_ids digest chunk_hash salt ids k
        ≡ names (take k (ranking digest chunk_hash salt ids))
  unfolding hrw_top_k_node_ids
  top_k-ranking ids zero = refl
  top_k-ranking ids (suc k) =
      rw (hrw_loop_lem digest chunk_hash salt (suc k) ids [] (omega arith) tt) (
        rw (ranking_onto-nil digest chunk_hash salt ids) (
          rw (
            sort_by-IsDescending _
              (IsDescending-take (suc k) _ (IsDescending-ranking digest chunk_hash salt ids)))))

  names-ranking : (ids : List Text) → Perm (names (ranking digest chunk_hash salt ids)) (named ids)
  unfolding ranking named
  names-ranking [] = Perm.refl _
  names-ranking ([] ∷ ids) = names-ranking ids
  names-ranking ((c ∷ cs) ∷ ids) =
      Perm.trans (map-ranked _ _) (Perm.cons (c ∷ cs) (names-ranking ids))

  scores-ranking :
      (ids : List Text)
      → All (λ i. i.0 ≡ hrw_score digest chunk_hash i.1 salt) (ranking digest chunk_hash salt ids)
  unfolding ranking
  scores-ranking [] = tt
  scores-ranking ([] ∷ ids) = scores-ranking ids
  scores-ranking ((c ∷ cs) ∷ ids) = All-insert_by (above item_lt) _ _ _ refl (scores-ranking ids)

  -- The chosen nodes are the first `k` of all named candidates with their scores in descending
  -- order, where a tie goes to the greater name.
  pub hrw_top_k_node_ids_best :
      (ids : List Text) (k : ℕ)
      → (l : List Item) × (hrw_top_k_node_ids digest chunk_hash salt ids k
          ≡ map (λ i. i.1) (take k l))
        × IsDescending item_lt l
        × Perm (map (λ i. i.1) l) (named ids)
        × All (λ i. i.0 ≡ hrw_score digest chunk_hash i.1 salt) l
  hrw_top_k_node_ids_best ids k = (
    ranking digest chunk_hash salt ids,
    top_k-ranking ids k,
    IsDescending-ranking digest chunk_hash salt ids,
    names-ranking ids,
    scores-ranking ids,
  )

  -- A candidate, put in its place if it has a name.
  enter : Text → List Item → List Item
  enter [] l = l
  enter (c ∷ cs) l = ranked (hrw_score digest chunk_hash (c ∷ cs) salt, c ∷ cs) l

  ranking-cons :
      (x : Text) (ids : List Text)
      → ranking digest chunk_hash salt (x ∷ ids) ≡ enter x (ranking digest chunk_hash salt ids)
  unfolding ranking enter
  ranking-cons [] ids = refl
  ranking-cons (c ∷ cs) ids = refl

  enter_comm : (x y : Text) (l : List Item) → enter x (enter y l) ≡ enter y (enter x l)
  unfolding enter
  enter_comm [] y l = refl
  enter_comm (c ∷ cs) [] l = refl
  enter_comm (c ∷ cs) (d ∷ ds) l = insert_by_comm item_lt item_order _ _ l

  ranking-permᴰ :
      {xs ys : List Text}
      → Permᴰ xs ys
      → ranking digest chunk_hash salt xs ≡ ranking digest chunk_hash salt ys
  ranking-permᴰ Permᴰ.nil = refl
  ranking-permᴰ (Permᴰ.cons {a = a} {b = b} {l₁ = l₁} {l₂ = l₂} e p) =
      ranking-cons a l₁ ∙ ap₂ enter e (ranking-permᴰ p) ∙ sym (ranking-cons b l₂)
  ranking-permᴰ (Permᴰ.swap {a = a} {b = b} {a' = a'} {b' = b'} {l = l} e f) =
      rw
        (
          ranking-cons a (b ∷ l),
          ranking-cons b l,
          ranking-cons a' (b' ∷ l),
          ranking-cons b' l,
          e,
          f,
        )
        (enter_comm b' a' (ranking digest chunk_hash salt l))
  ranking-permᴰ (Permᴰ.trans p q) = ranking-permᴰ p ∙ ranking-permᴰ q

  ranking-perm :
      {xs ys : List Text}
      → Perm xs ys
      → ranking digest chunk_hash salt xs ≡ ranking digest chunk_hash salt ys
  ranking-perm p = ∥∥₁_elim p (items_set _ _) ranking-permᴰ

  -- Candidates in another order are ranked alike, so the same nodes are chosen.
  pub hrw_top_k_node_ids-perm :
      (xs ys : List Text) (k : ℕ)
      → Perm xs ys
      → hrw_top_k_node_ids digest chunk_hash salt xs k
        ≡ hrw_top_k_node_ids digest chunk_hash salt ys k
  hrw_top_k_node_ids-perm xs ys k p =
      rw (top_k-ranking xs k, top_k-ranking ys k) (ap (λ l. names (take k l)) (ranking-perm p))

  get_elem?-names :
      (l : List Item) (i : ℕ) (x : Item) → get_elem? l i ≡ some x → get_elem? (names l) i ≡ some x.1
  get_elem?-names [] i x h = cc
  get_elem?-names (y ∷ l) zero x h = ground arith
  get_elem?-names (y ∷ l) (suc i) x h = get_elem?-names l i x h

  take-enter :
      (k : ℕ) (x : Text) (l : List Item)
      → ((i : ℕ) → get_elem? (names (take k (enter x l))) i ≢ some x)
      → take k (enter x l) ≡ take k l
  unfolding enter
  take-enter k [] l absent = refl
  take-enter k (c ∷ cs) l absent = elim (take-insert_by_others item_lt item_order k _ l) [
    | inl same ↦ same
    | inr (i, at) ↦ absurd (absent i (get_elem?-names _ i _ at))
  ]

  -- When a node that was not chosen goes, the chosen nodes stay the same and in the same order.
  pub hrw_top_k_node_ids-remove :
      (xs ys : List Text) (gone : Text) (k : ℕ)
      → ((i : ℕ)
          → get_elem? (hrw_top_k_node_ids digest chunk_hash salt (xs ++ gone ∷ ys) k) i ≢ some gone)
      → hrw_top_k_node_ids digest chunk_hash salt (xs ++ gone ∷ ys) k
        ≡ hrw_top_k_node_ids digest chunk_hash salt (xs ++ ys) k
  hrw_top_k_node_ids-remove xs ys gone k absent =
      let moved = ranking-perm (perm_middle {a = gone} xs ys) ∙ ranking-cons gone (xs ++ ys) in
      let chosen = top_k-ranking (xs ++ gone ∷ ys) k ∙ ap (λ l. names (take k l)) moved in
      chosen
      ∙ ap names (take-enter k gone _ (λ i at. absent i (ap (λ l. get_elem? l i) chosen ∙ at)))
      ∙ sym (top_k-ranking (xs ++ ys) k)

  length-ranking :
      (ids : List Text) → length (ranking digest chunk_hash salt ids) ≡ length (named ids)
  unfolding ranking named
  length-ranking [] = refl
  length-ranking ([] ∷ ids) = length-ranking ids
  length-ranking ((c ∷ cs) ∷ ids) =
      length-insert_by (above item_lt) _ _ ∙ ap suc (length-ranking ids)

  -- As many nodes are chosen as were asked for, or all that have a name.
  pub length-hrw_top_k_node_ids :
      (ids : List Text) (k : ℕ)
      → length (hrw_top_k_node_ids digest chunk_hash salt ids k) ≡ min k (length (named ids))
  length-hrw_top_k_node_ids ids k =
      rw
        (
          top_k-ranking ids k,
          length-map (λ (i : Item). i.1) (take k (ranking digest chunk_hash salt ids)),
        )
        (rw (length-take k (ranking digest chunk_hash salt ids), length-ranking ids))

  module _ {κ} (P : Text → Type κ) where
    All-ranking :
        (ids : List Text) → All P ids → All (λ i. P i.1) (ranking digest chunk_hash salt ids)
    unfolding ranking
    All-ranking [] h = tt
    All-ranking ([] ∷ ids) h = All-ranking ids h.1
    All-ranking ((c ∷ cs) ∷ ids) h =
        All-insert_by (above item_lt) (λ i. P i.1) _ _ h.0 (All-ranking ids h.1)

    All-names_take : (k : ℕ) (l : List Item) → All (λ i. P i.1) l → All P (names (take k l))
    All-names_take zero l h = tt
    All-names_take (suc k) [] h = tt
    All-names_take (suc k) (x ∷ l) h = (h.0, All-names_take k l h.1)

    -- Whatever holds of every candidate holds of the chosen ones.
    pub All-hrw_top_k_node_ids :
        (ids : List Text) (k : ℕ)
        → All P ids
        → All P (hrw_top_k_node_ids digest chunk_hash salt ids k)
    All-hrw_top_k_node_ids ids k h =
        rw (top_k-ranking ids k) (All-names_take k _ (All-ranking ids h))
