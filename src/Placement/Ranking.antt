-- ===== src/Placement/Ranking.antt =====
-- placement/hrw.py: the heap of `hrw_top_k_node_ids` and the ranking of all named nodes.
use stopan.Prelude.{
  ℕ, zero, suc, ◌≤◌, ◌<◌, ltb, lt→ltb, ltb→lt, ◌≡◌, refl, sym, inl, inr, false, List, [], ◌∷◌,
  arith, length, take, All, Text, Bytes, text_lt_irrefl, text_lt_trans, text_lt_total, Bool-cases,
  length-take, take_all,
}
use stopan.Sorting.{insert_by, length-insert_by}
use stopan.Sorting.TopK.{
  IsStrictOrder, above, last_or, IsDescending, IsDescending-insert_by, take-insert_by,
  take-insert_by_replace, take-insert_by_skip, insert_by_comm,
}
use stopan.Placement.{Item, item_lt, hrw_score, heap_step, hrw_loop}

pub item_order : IsStrictOrder item_lt
unfolding item_lt
item_order = record {
  irrefl = λ (s, n). ground (arith, text_lt_irrefl n);
  trans = λ (s, n) (t, m) (u, l) h k. ground (arith, text_lt_trans n m l);
  total = λ (s, n) (t, m) h k. ground (arith, text_lt_total n m);
}

abbrev pub ranked : Item → List Item → List Item
ranked = insert_by (above item_lt)

pub IsDescending-take :
    (k : ℕ) (l : List Item) → IsDescending item_lt l → IsDescending item_lt (take k l)
IsDescending-take zero l h = tt
IsDescending-take (suc k) [] h = tt
IsDescending-take (suc k) (x ∷ l) h = (All-take k x l h.0, IsDescending-take k l h.1)
  where
    All-take :
        (k : ℕ) (x : Item) (l : List Item)
        → All (λ y. item_lt x y ≡ false) l
        → All (λ y. item_lt x y ≡ false) (take k l)
    All-take zero x l a = tt
    All-take (suc k) x [] a = tt
    All-take (suc k) x (y ∷ l) a = (a.0, All-take k x l a.1)

-- One round keeps the first `k` of an ordered insertion.
heap_step_full :
    (x y : Item) (l : List Item)
    → IsDescending item_lt (y ∷ l)
    → heap_step (length (y ∷ l)) x (y ∷ l) ≡ take (length (y ∷ l)) (ranked x (y ∷ l))
unfolding heap_step
heap_step_full x y l desc = elim (Bool-cases (ltb (length (y ∷ l)) (length (y ∷ l)))) [
  | inl e ↦ absurd (ground arith)
  | inr e ↦ elim (Bool-cases (item_lt (last_or x (y ∷ l)) x)) [
    | inl f ↦ rw (e, f) (sym (take-insert_by_replace item_lt x y l f))
    | inr f ↦ rw (e, f) (sym (take-insert_by_skip item_lt item_order x y l desc f))
  ]
]

heap_step_room :
    (k : ℕ) (x : Item) (h : List Item) → length h < k → heap_step k x h ≡ take k (ranked x h)
unfolding heap_step
heap_step_room k x h room =
    rw (lt→ltb (length h) k room)
      (sym (take_all k (ranked x h) (rw (length-insert_by (above item_lt) x h) room)))

heap_step_lem :
    (k : ℕ) (x : Item) (h : List Item)
    → 0 < k
    → length h ≤ k
    → IsDescending item_lt h
    → heap_step k x h ≡ take k (ranked x h)
heap_step_lem k x [] pos fits desc = heap_step_room k x [] pos
heap_step_lem k x (y ∷ l) pos fits desc = elim (Bool-cases (ltb (length (y ∷ l)) k)) [
  | inl room ↦ heap_step_room k x (y ∷ l) (ltb→lt _ _ room)
  | inr full ↦ let e : suc (length l) ≡ k = ground arith in rw (← e) (heap_step_full x y l desc)
]

module _ (digest : Bytes → Bytes) (chunk_hash salt : Text) where
  -- Every named node with its score, the best first.
  unfoldable pub ranking : List Text → List Item
  ranking [] = []
  ranking ([] ∷ ids) = ranking ids
  ranking ((c ∷ cs) ∷ ids) =
      ranked (hrw_score digest chunk_hash (c ∷ cs) salt, c ∷ cs) (ranking ids)

  pub IsDescending-ranking : (ids : List Text) → IsDescending item_lt (ranking ids)
  unfolding ranking
  IsDescending-ranking [] = tt
  IsDescending-ranking ([] ∷ ids) = IsDescending-ranking ids
  IsDescending-ranking ((c ∷ cs) ∷ ids) =
      IsDescending-insert_by item_lt item_order _ (ranking ids) (IsDescending-ranking ids)

  -- The nodes of a list, inserted one after another into an ordered list.
  pub ranking_onto : List Text → List Item → List Item
  ranking_onto [] l = l
  ranking_onto ([] ∷ ids) l = ranking_onto ids l
  ranking_onto ((c ∷ cs) ∷ ids) l =
      ranking_onto ids (ranked (hrw_score digest chunk_hash (c ∷ cs) salt, c ∷ cs) l)

  ranking_onto-ranked :
      (x : Item) (ids : List Text) (l : List Item)
      → ranking_onto ids (ranked x l) ≡ ranked x (ranking_onto ids l)
  unfolding ranking_onto
  ranking_onto-ranked x [] l = refl
  ranking_onto-ranked x ([] ∷ ids) l = ranking_onto-ranked x ids l
  ranking_onto-ranked x ((c ∷ cs) ∷ ids) l =
      rw (insert_by_comm item_lt item_order _ x l) (ranking_onto-ranked x ids _)

  pub ranking_onto-nil : (ids : List Text) → ranking_onto ids [] ≡ ranking ids
  unfolding ranking_onto ranking
  ranking_onto-nil [] = refl
  ranking_onto-nil ([] ∷ ids) = ranking_onto-nil ids
  ranking_onto-nil ((c ∷ cs) ∷ ids) = rw (ranking_onto-ranked _ ids []) (rw (ranking_onto-nil ids))

  pub hrw_loop_lem :
      (k : ℕ) (ids : List Text) (l : List Item)
      → 0 < k
      → IsDescending item_lt l
      → hrw_loop digest chunk_hash salt k ids (take k l) ≡ take k (ranking_onto ids l)
  unfolding hrw_loop ranking_onto
  hrw_loop_lem k [] l pos desc = refl
  hrw_loop_lem k ([] ∷ ids) l pos desc = hrw_loop_lem k ids l pos desc
  hrw_loop_lem k ((c ∷ cs) ∷ ids) l pos desc =
      rw
        (heap_step_lem k _ (take k l) pos (rw (length-take k l) (omega arith))
          (IsDescending-take k l desc))
        (rw (take-insert_by item_lt k _ l)
          (hrw_loop_lem k ids _ pos (IsDescending-insert_by item_lt item_order _ l desc)))
