-- ===== src/Replication/Plan.antt =====
-- The plan for many chunks against the targets of each one.
use stopan.Prelude.{
  ℕ, zero, suc, min, leb, ◌≡◌, refl, sym, ap, ◌∙◌, subst, ◌⊎◌, inl, inr, ⊎_elim, true, false, List,
  [], ◌∷◌, length, some, if-cases, Bool-cases, Text, Bytes, text_eq, text_eq_iff, contains, strip,
  Dict, lookup, insert, lookup-insert, ok, arith,
}
use stopan.Sequences.{ordered_unique}
use stopan.Sequences.Unique.{ordered_unique_lem}
use stopan.Cluster.{
  ClusterMember, ClusterView, node_addresses, truthy, named_excluded, candidate_members_excluding,
  with_addresses, hrw_targets_excluding,
}
use stopan.Cluster.Targets.{candidates, chosen, IsCandidate-chosen, chosen_zero, targets-eq-chosen}
use stopan.Replication.Targets.{min_zero}
use stopan.Replication.{
  excluded_origin, select_remote_chunk_targets, ReplicationTargetPlan, members_onto, assign,
  remote_targets, plan_loop, plan_chunk_replication_targets,
}
use stopan.Replication.Members.{IsSame, IsSame-members, pick-eq}

leb_zero : (k : ℕ) → leb k 0 ≡ true → k ≡ 0
leb_zero k h = ground arith

assign-targets :
    (h : Text) (ms : List ClusterMember) (plan : ReplicationTargetPlan)
    → (assign h ms plan).chunk_targets ≡ plan.chunk_targets
unfolding assign
assign-targets h [] plan = refl
assign-targets h (m ∷ ms) plan = assign-targets h ms _

module _ (f : Text → List ClusterMember) (k h : Text) (d : Dict (List ClusterMember)) where
  inserted_here : h ≡ k → lookup h (insert k (f k) d) ≡ some (f h)
  inserted_here e =
      subst (λ (t : Text). lookup t (insert k (f k) d) ≡ some (f t)) (sym e)
        (rw (lookup-insert k k (f k) d, (text_eq_iff k k).1 refl) refl)

  inserted : lookup h d ≡ some (f h) → lookup h (insert k (f k) d) ≡ some (f h)
  inserted m = elim (Bool-cases (text_eq k h)) [
    | inl e ↦ inserted_here (sym ((text_eq_iff k h).0 e))
    | inr e ↦ rw (lookup-insert k h (f k) d, e) m
  ]

is_head :
    (k h : Text) (hashes : List Text)
    → contains h (k ∷ hashes) ≡ true
    → (h ≡ k) ⊎ (contains h hashes ≡ true)
unfolding contains
is_head k h hashes m = ground (arith, text_eq_iff h k)

module _ (digest : Bytes → Bytes) (cluster : ClusterView) (salt : Text) (excluded : List Text) where
  IsSame-names :
      (i : Text)
      → contains i (named_excluded excluded) ≡ false
      → truthy i ≡ true
      → IsSame i
          (members_onto [] (candidate_members_excluding cluster excluded))
          (node_addresses cluster)
  unfolding candidate_members_excluding node_addresses lookup
  IsSame-names i fresh named =
      IsSame-members i (named_excluded excluded) cluster.members [] [] fresh named
        (inl (refl, refl))

  -- The targets of a chunk in the plan are those that are selected for it.
  remote_targets-eq :
      (required : ℕ) (h : Text)
      → remote_targets digest
          (candidate_members_excluding cluster excluded)
          (min required (length (candidate_members_excluding cluster excluded)))
          salt
          h
        ≡ ok (hrw_targets_excluding digest cluster h required salt excluded)
  unfolding remote_targets with_addresses
  remote_targets-eq required h =
      let all = candidate_members_excluding cluster excluded in
      let k = min required (length all) in
      let chosen_h = chosen digest cluster h salt excluded required in
      let d = members_onto [] all in
      rw (targets-eq-chosen digest cluster h salt excluded required) (
        if-cases (λ r. r ≡ ok (with_addresses (node_addresses cluster) chosen_h)) (leb k 0)
          (λ none_asked.
            ap (λ (l : List Text). ok (with_addresses (node_addresses cluster) l))
              (sym (chosen_zero digest cluster h salt excluded required (leb_zero k none_asked))))
          (λ _.
            pick-eq d (node_addresses cluster) (named_excluded excluded) chosen_h IsSame-names
              (IsCandidate-chosen digest cluster h salt excluded required)))

  -- What a loop over chunks leaves in the plan.
  record Planned (f : Text → List ClusterMember) (hashes : List Text)
      (before after : ReplicationTargetPlan) : Type 0 where
    stays :
        (h : Text)
        → lookup h before.chunk_targets ≡ some (f h)
        → lookup h after.chunk_targets ≡ some (f h)
    planned : (h : Text) → contains h hashes ≡ true → lookup h after.chunk_targets ≡ some (f h)

  abbrev selected : ℕ → Text → List ClusterMember
  selected required h = hrw_targets_excluding digest cluster h required salt excluded

  plan_loop-Planned :
      (required : ℕ) (hashes : List Text) (plan : ReplicationTargetPlan)
      → let all = candidate_members_excluding cluster excluded in
        (last : ReplicationTargetPlan) × (plan_loop digest all
            (min required (length all))
            salt
            hashes
            plan
          ≡ ok last)
        × Planned (selected required) hashes plan last
  unfolding plan_loop contains
  plan_loop-Planned required [] plan =
      (plan, refl, record { stays = λ h m. m; planned = λ h m. cc })
  plan_loop-Planned required (k ∷ hashes) plan =
      let f = selected required in
      let first = record plan { chunk_targets = insert k (f k) plan.chunk_targets } in
      let next = assign k (f k) first in
      let (last, ran, p) = plan_loop-Planned required hashes next in
      let targets = assign-targets k (f k) first in
      let has = λ (h : Text) (m : lookup h (insert k (f k) plan.chunk_targets) ≡ some (f h)).
        p.stays h
          (subst (λ (d : Dict (List ClusterMember)). lookup h d ≡ some (f h)) (sym targets) m) in
      (
        last,
        rw (remote_targets-eq required k) ran,
        record {
          stays = λ h m. has h (inserted f k h plan.chunk_targets m);
          planned = λ h m.
              ⊎_elim (λ e. has h (inserted_here f k h plan.chunk_targets e)) (p.planned h)
                (is_head k h hashes m);
        },
      )

  selected_none : (h : Text) → selected 0 h ≡ []
  unfolding with_addresses
  selected_none h =
      targets-eq-chosen digest cluster h salt excluded 0
      ∙ ap (with_addresses (node_addresses cluster)) (
          chosen_zero digest cluster h salt excluded 0
            (min_zero (length (candidates digest cluster h salt excluded))))

selects :
    (digest : Bytes → Bytes) (cluster : ClusterView) (token origin : Text) (c : ℕ) (cs h : Text)
    (n : ℕ)
    → strip origin ≡ c ∷ cs
    → select_remote_chunk_targets digest cluster h n token origin
      ≡ ok (hrw_targets_excluding digest cluster h n token ((c ∷ cs) ∷ []))
unfolding select_remote_chunk_targets excluded_origin
selects digest cluster token origin c cs h zero named =
    ap ok (sym (selected_none digest cluster token ((c ∷ cs) ∷ []) h))
selects digest cluster token origin c cs h (suc n) named = rw named refl

-- For an origin with a name the plan for many chunks exists, and it gives each of the chunks the
-- targets that `select_remote_chunk_targets` selects for it.
pub plan_chunk_replication_targets-selected :
    (digest : Bytes → Bytes) (cluster : ClusterView) (chunk_hashes : List Text) (required : ℕ)
    (token origin : Text) (c : ℕ) (cs h : Text)
    → strip origin ≡ c ∷ cs
    → contains h chunk_hashes ≡ true
    → (plan : ReplicationTargetPlan) × (targets : List ClusterMember)
      × (plan_chunk_replication_targets digest cluster chunk_hashes required token origin ≡ ok plan)
      × (lookup h plan.chunk_targets ≡ some targets)
      × (select_remote_chunk_targets digest cluster h required token origin ≡ ok targets)
unfolding plan_chunk_replication_targets excluded_origin candidate_members_excluding named_excluded
plan_chunk_replication_targets-selected digest cluster chunk_hashes required token origin c cs h
      named m =
    let excluded = (c ∷ cs) ∷ [] in
    let blank : ReplicationTargetPlan = record {
      chunk_targets = [];
      target_chunks = [];
      target_members = [];
    } in
    let (plan, ran, p) =
      plan_loop-Planned digest cluster token excluded required (ordered_unique chunk_hashes)
        blank in
    let (kept, _) = ordered_unique_lem chunk_hashes in
    (
      plan,
      hrw_targets_excluding digest cluster h required token excluded,
      rw named ran,
      p.planned h (kept h ∙ m),
      selects digest cluster token origin c cs h required named,
    )
