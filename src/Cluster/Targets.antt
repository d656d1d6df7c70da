-- ===== src/Cluster/Targets.antt =====
-- `hrw_targets_excluding` of cluster/view.py: the targets and the candidates.
use stopan.Prelude.{
  ℕ, min, leb, ◌≡◌, refl, ap, sym, ◌∙◌, inl, inr, true, false, not, ◌&&◌, ◌||◌, List, [], ◌∷◌, some,
  arith, length, All, Text, Bytes, Dict, lookup, insert, lookup-insert, text_eq, text_eq_iff,
  contains, Bool-cases, length-map,
}
use stopan.Placement.{hrw_top_k_node_ids}
use stopan.Placement.Choice.{named, length-hrw_top_k_node_ids, All-hrw_top_k_node_ids}
use stopan.Cluster.{
  ClusterMember, ClusterView, member_ids, node_addresses, addresses_onto, truthy, named_excluded,
  members_excluding, candidate_members_excluding, candidate_node_ids_excluding, with_addresses,
  hrw_targets_excluding,
}

-- An identifier that the dictionary knows.
abbrev pub Known : Dict Text → Text → Type 0
Known d i = (a : Text) × (lookup i d ≡ some a)

member_ids-with_addresses :
    (d : Dict Text) (is : List Text) → All (Known d) is → member_ids (with_addresses d is) ≡ is
unfolding member_ids with_addresses
member_ids-with_addresses d [] h = refl
member_ids-with_addresses d (i ∷ is) h =
    rw (h.0.1, with_addresses) (ap (λ l. i ∷ l) (member_ids-with_addresses d is h.1))

Known-insert : (i k a : Text) (d : Dict Text) → Known d i → Known (insert k a d) i
Known-insert i k a d h = elim (Bool-cases (text_eq k i)) [
  | inl e ↦ (a, rw (lookup-insert k i a d, e))
  | inr e ↦ (h.0, rw (lookup-insert k i a d, e) h.1)
]

Known-addresses_onto :
    (i : Text) (d : Dict Text) (ms : List ClusterMember) → Known d i → Known (addresses_onto d ms) i
unfolding addresses_onto
Known-addresses_onto i d [] h = h
Known-addresses_onto i d (m ∷ ms) h =
    Known-addresses_onto i (insert m.node_id m.address d) ms
      (Known-insert i m.node_id m.address d h)

-- Every candidate is a member with a name, is not excluded, and has an address.
abbrev pub IsCandidate : Dict Text → List Text → Text → Type 0
IsCandidate d excluded i = Known d i × (contains i excluded ≡ false) × (truthy i ≡ true)

candidates_lem :
    (excluded : List Text) (d : Dict Text) (ms : List ClusterMember)
    → All (IsCandidate (addresses_onto d ms) excluded) (member_ids (members_excluding excluded ms))
unfolding member_ids members_excluding addresses_onto
candidates_lem excluded d [] = tt
candidates_lem excluded d (m ∷ ms) =
    elim (Bool-cases (truthy m.node_id && not (contains m.node_id excluded))) [
      | inr e ↦ rw e (candidates_lem excluded (insert m.node_id m.address d) ms)
      | inl e ↦ rw e (
        (
          Known-addresses_onto m.node_id _ ms (
            m.address,
            rw (
              lookup-insert m.node_id m.node_id m.address d,
              (text_eq_iff m.node_id m.node_id).1 refl,
            ),
          ),
          ground arith,
          ground arith,
        ),
        candidates_lem excluded (insert m.node_id m.address d) ms,
      )
    ]

named-named :
    (excluded : List Text) (ms : List ClusterMember)
    → named (member_ids (members_excluding excluded ms))
      ≡ member_ids (members_excluding excluded ms)
unfolding member_ids members_excluding named
named-named excluded [] = refl
named-named excluded (m ∷ ms) =
    elim (Bool-cases (truthy m.node_id && not (contains m.node_id excluded))) [
      | inr e ↦ rw e (named-named excluded ms)
      | inl e ↦ rw e (
          keep m.node_id (member_ids (members_excluding excluded ms)) (ground arith)
            (named-named excluded ms))
    ]
  where
    keep : (i : Text) (l : List Text) → truthy i ≡ true → named l ≡ l → named (i ∷ l) ≡ i ∷ l
    keep [] l t e = cc
    keep (c ∷ cs) l t e = ap (λ r. (c ∷ cs) ∷ r) e

contains-named_excluded :
    (i : Text) (xs : List Text) → truthy i ≡ true → contains i (named_excluded xs) ≡ contains i xs
unfolding contains named_excluded text_eq
contains-named_excluded i [] t = refl
contains-named_excluded (c ∷ cs) ([] ∷ xs) t = contains-named_excluded (c ∷ cs) xs t
contains-named_excluded (c ∷ cs) ((d ∷ ds) ∷ xs) t =
    ap (λ b. text_eq (c ∷ cs) (d ∷ ds) || b) (contains-named_excluded (c ∷ cs) xs t)
contains-named_excluded [] (x ∷ xs) t = cc

-- What a target is: a node outside the excluded ones, with the address that the view has for it.
abbrev pub IsTarget : Dict Text → List Text → ClusterMember → Type 0
IsTarget d excluded m =
    (contains m.node_id excluded ≡ false) × (lookup m.node_id d ≡ some m.address)

All-with_addresses :
    (d : Dict Text) (excluded is : List Text)
    → All (IsCandidate d (named_excluded excluded)) is
    → All (IsTarget d excluded) (with_addresses d is)
unfolding with_addresses
All-with_addresses d excluded [] h = tt
All-with_addresses d excluded (i ∷ is) h =
    rw (h.0.0.1, with_addresses)
      (
        (sym (contains-named_excluded i excluded h.0.2) ∙ h.0.1, h.0.0.1),
        All-with_addresses d excluded is h.1,
      )

All-Known :
    (d : Dict Text) (excluded is : List Text) → All (IsCandidate d excluded) is → All (Known d) is
All-Known d excluded [] h = tt
All-Known d excluded (i ∷ is) h = (h.0.0, All-Known d excluded is h.1)

length-member_ids : (ms : List ClusterMember) → length (member_ids ms) ≡ length ms
unfolding member_ids
length-member_ids ms = length-map (λ (m : ClusterMember). m.node_id) ms

module _ (digest : Bytes → Bytes) (cluster : ClusterView) (chunk_hash salt : Text)
    (excluded : List Text) where
  abbrev pub candidates : List ClusterMember
  candidates = candidate_members_excluding cluster excluded

  abbrev pub chosen : ℕ → List Text
  chosen rf =
      hrw_top_k_node_ids digest chunk_hash salt (member_ids candidates) (min rf (length candidates))

  pub IsCandidate-chosen :
      (rf : ℕ) → All (IsCandidate (node_addresses cluster) (named_excluded excluded)) (chosen rf)
  unfolding node_addresses candidate_members_excluding
  IsCandidate-chosen rf =
      All-hrw_top_k_node_ids digest chunk_hash salt
        (IsCandidate (node_addresses cluster) (named_excluded excluded)) _ _
        (candidates_lem (named_excluded excluded) [] cluster.members)

  pub chosen_zero : (rf : ℕ) → min rf (length candidates) ≡ 0 → chosen rf ≡ []
  unfolding hrw_top_k_node_ids
  chosen_zero rf e = rw e

  -- The two early returns of the code agree with the general case.
  pub targets-eq-chosen :
      (rf : ℕ)
      → hrw_targets_excluding digest cluster chunk_hash rf salt excluded
        ≡ with_addresses (node_addresses cluster) (chosen rf)
  targets-eq-chosen rf = elim (Bool-cases (leb (min rf (length candidates)) 0)) [
    | inl e ↦
        rw (chosen_zero rf (ground arith))
          (unfold hrw_targets_excluding with_addresses in ground arith)
    | inr e ↦ unfold hrw_targets_excluding in ground arith
  ]

  named-candidates : named (member_ids candidates) ≡ member_ids candidates
  unfolding candidate_members_excluding
  named-candidates = named-named (named_excluded excluded) cluster.members

  member_ids-targets :
      (rf : ℕ)
      → member_ids (hrw_targets_excluding digest cluster chunk_hash rf salt excluded) ≡ chosen rf
  member_ids-targets rf =
      rw (targets-eq-chosen rf)
        (member_ids-with_addresses _ (chosen rf) (All-Known _ _ _ (IsCandidate-chosen rf)))

  length-chosen : (rf : ℕ) → length (chosen rf) ≡ min rf (length candidates)
  length-chosen rf =
      rw
        (length-hrw_top_k_node_ids digest chunk_hash salt (member_ids candidates)
          (min rf (length candidates)))
        (rw (named-candidates, length-member_ids candidates) (omega arith))

  -- The targets are the best of the candidates by rank, as many as were asked for or all of them;
  -- none is excluded and each has the address of its node in the view.
  pub hrw_targets_excluding_best :
      (rf : ℕ)
      → let targets = hrw_targets_excluding digest cluster chunk_hash rf salt excluded in
        let ids = candidate_node_ids_excluding cluster excluded in
        (member_ids targets ≡ hrw_top_k_node_ids digest chunk_hash salt ids (min rf (length ids)))
        × (length targets ≡ min rf (length ids))
        × All (IsTarget (node_addresses cluster) excluded) targets
  unfolding candidate_node_ids_excluding
  hrw_targets_excluding_best rf = rw (length-member_ids candidates) (
    member_ids-targets rf,
    sym (length-member_ids _) ∙ ap length (member_ids-targets rf) ∙ length-chosen rf,
    rw (targets-eq-chosen rf) (All-with_addresses _ excluded _ (IsCandidate-chosen rf)),
  )
