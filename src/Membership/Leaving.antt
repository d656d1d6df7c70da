-- ===== src/Membership/Leaving.antt =====
-- node/membership/manager.py: the runs of a node that leaves.
use stopan.Prelude.{
  ℕ, ◌^◌, ◌<◌, ltb, lt→ltb, ◌≡◌, ◌⊎◌, refl, ap, subst, ◌∙◌, inl, inr, Bool, true, false, not, ◌&&◌,
  [], ◌∷◌, Option, none, some, arith, if-cases, All, Text, text_eq, text_eq_iff, Dict, lookup,
  insert, lookup-insert, Result, ok, err,
}
use stopan.Membership.Validation.{MemberEvent, NodeInfo, left, is_alive}
use stopan.Membership.Manager.{
  MemberRecord, Manager, MembershipError, member_event, gossip_add, gossip_sample, merge_event,
  set_own, own_record, announce_event, announce, handle_self_event, announce_alive, announce_left,
  begin_leave, accept_event, complete_bootstrap, snapshot_of, get_members_snapshot,
}
use stopan.Membership.View.{mark_of, view, merge_event-cases, view-merge_event, node_id-merge_event}
use stopan.Membership.Steps.{Reach, IsKept, Reach-IsKept}

-- The node has begun to leave.
record IsLeaving (me : Text) (m : Manager) : Type 0 where
  pub name : m.node_id ≡ me
  pub leaves : m.leaving ≡ true

gossip_add-own :
    (now : ℕ) (e : MemberEvent) (m : Manager)
    → ((gossip_add now e m).node_id ≡ m.node_id)
      × ((gossip_add now e m).leaving ≡ m.leaving)
      × ((gossip_add now e m).incarnation ≡ m.incarnation)
      × ((gossip_add now e m).members ≡ m.members)
unfolding gossip_add
gossip_add-own now e m = ground arith

accept_event-own :
    (now : ℕ) (e : MemberEvent) (r : MemberRecord) (m : Manager)
    → ((accept_event now e r m).leaving ≡ m.leaving)
      × ((accept_event now e r m).incarnation ≡ m.incarnation)
unfolding accept_event gossip_add complete_bootstrap
accept_event-own now e r m = ground arith

merge_event-own :
    (now : ℕ) (e : MemberEvent) (o : Option MemberRecord) (m : Manager)
    → ((merge_event now e o m).leaving ≡ m.leaving)
      × ((merge_event now e o m).incarnation ≡ m.incarnation)
merge_event-own now e o m =
    merge_event-cases (λ m'. (m'.leaving ≡ m.leaving) × (m'.incarnation ≡ m.incarnation)) now e o m
      (refl, refl) (λ r. accept_event-own now e r m)

handle_self_event-leaving :
    (now : ℕ) (e : MemberEvent) (m : Manager)
    → m.leaving ≡ true
    → handle_self_event now e m ≡ (m, none)
unfolding handle_self_event
handle_self_event-leaving now e m l = rw l

announce_alive-leaving :
    (now : ℕ) (m : Manager) → m.leaving ≡ true → announce_alive now m ≡ (m, none)
unfolding announce_alive
announce_alive-leaving now m l = rw l

set_left :
    (now : ℕ) (m : Manager) (r : MemberRecord)
    → mark_of (lookup m.node_id (insert m.node_id (own_record now left m r) m.members))
      ≡ some (m.incarnation, 4)
unfolding own_record
set_left now m r = rw (
  lookup-insert m.node_id m.node_id (own_record now left m r) m.members,
  (text_eq_iff m.node_id m.node_id).1 refl,
)

-- The leaving node: its incarnation is `i`, and it is recorded as having left.
record IsGone (me : Text) (i : ℕ) (m : Manager) : Type 0 where
  pub name : m.node_id ≡ me
  pub leaves : m.leaving ≡ true
  pub last : m.incarnation ≡ i
  pub recorded : view me m ≡ some (i, 4)

-- Announcing that the node leaves keeps it, or makes its record LEFT in its incarnation.
announce_event-left :
    (now : ℕ) (e : Result MembershipError MemberEvent) (m : Manager)
    → let m' = (announce_event now left e m).0 in
      (m'.node_id ≡ m.node_id)
      × (m'.leaving ≡ m.leaving)
      × (m'.incarnation ≡ m.incarnation)
      × ((view m.node_id m' ≡ view m.node_id m) ⊎ (view m.node_id m' ≡ some (m.incarnation, 4)))
unfolding announce_event view
announce_event-left now (err e) m = (refl, refl, refl, inl refl)
announce_event-left now (ok e) m = go (lookup m.node_id m.members)
  where
    go :
        (o : Option MemberRecord)
        → let m' = gossip_add now e (set_own now left o m) in
          (m'.node_id ≡ m.node_id)
          × (m'.leaving ≡ m.leaving)
          × (m'.incarnation ≡ m.incarnation)
          × ((mark_of (lookup m.node_id m'.members) ≡ mark_of (lookup m.node_id m.members))
              ⊎ (mark_of (lookup m.node_id m'.members) ≡ some (m.incarnation, 4)))
    go none =
        let (n, l, i, ms) = gossip_add-own now e (set_own now left none m) in
        unfold set_own in (n, l, i, inl (rw (ms)))
    go (some r) =
        let (n, l, i, ms) = gossip_add-own now e (set_own now left (some r) m) in
        unfold set_own in
        (n, l, i, inr (ap (λ d. mark_of (lookup m.node_id d)) ms ∙ set_left now m r))

announce_left-recorded :
    (now : ℕ) (m : Manager) (r : MemberRecord)
    → lookup m.node_id m.members ≡ some r
    → ltb m.incarnation (2 ^ 64) ≡ true
    → view m.node_id (announce_left now m).0 ≡ some (m.incarnation, 4)
unfolding announce_left announce announce_event member_event view set_own
announce_left-recorded now m r known fits =
    let (_, _, _, ms) = gossip_add-own now _ (set_own now left (some r) m) in
    rw (fits, known) (ap (λ d. mark_of (lookup m.node_id d)) ms ∙ set_left now m r)

module _ (me : Text) (i : ℕ) where
  announce_left-IsGone :
      (now : ℕ) (m : Manager) → IsGone me i m → IsGone me i (announce_left now m).0
  unfolding announce_left announce view
  announce_left-IsGone now m g =
      let e = member_event m.node_id m.address m.incarnation left now in
      let (n, l, k, v) = announce_event-left now e m in
      record {
        name = n ∙ g.name;
        leaves = l ∙ g.leaves;
        last = k ∙ g.last;
        recorded = rw (← g.name) (elim v [
          | inl same ↦ same ∙ rw g.name g.recorded
          | inr set ↦ set ∙ ap (λ n. some (n, 4)) g.last
        ]);
      }

  merge_event-IsGone :
      (now : ℕ) (e : MemberEvent) (m : Manager)
      → text_eq e.node_id m.node_id ≡ false
      → IsGone me i m
      → IsGone me i (merge_event now e (lookup e.node_id m.members) m)
  unfolding view
  merge_event-IsGone now e m f g =
      let (l, k) = merge_event-own now e (lookup e.node_id m.members) m in
      record {
        name = node_id-merge_event now e _ m ∙ g.name;
        leaves = l ∙ g.leaves;
        last = k ∙ g.last;
        recorded = view-merge_event me now e _ m refl ∙ rw (← g.name, f) (rw g.name g.recorded);
      }

  IsGone-IsKept : IsKept (IsGone me i)
  unfolding begin_leave gossip_sample view
  IsGone-IsKept = record {
    merge = merge_event-IsGone;
    own = λ now e m g. rw (handle_self_event-leaving now e m g.leaves) g;
    alive = λ now m g. rw (announce_alive-leaving now m g.leaves) g;
    left = λ now m _ g. announce_left-IsGone now m g;
    leave = λ m g. record { name = g.name; leaves = refl; last = g.last; recorded = g.recorded };
    sample = λ now limit m g. record {
      name = g.name;
      leaves = g.leaves;
      last = g.last;
      recorded = g.recorded;
    };
  }

-- Once a node with an incarnation below 2 ^ 64 has announced that it leaves, it keeps its
-- incarnation and records itself as having left in it, whatever its manager is told afterwards.
pub Reach-left :
    (now : ℕ) (m m' : Manager) (r : MemberRecord)
    → lookup m.node_id m.members ≡ some r
    → m.incarnation < 2 ^ 64
    → Reach (announce_left now (begin_leave m)).0 m'
    → (m'.incarnation ≡ m.incarnation) × (view m.node_id m' ≡ some (m.incarnation, 4))
unfolding begin_leave
Reach-left now m m' r known fits run =
    let leaver = begin_leave m in
    let (n, l, k, _) =
      announce_event-left now (member_event m.node_id m.address m.incarnation left now) leaver in
    let gone =
      Reach-IsKept (IsGone m.node_id m.incarnation) (IsGone-IsKept m.node_id m.incarnation) run (
        unfold announce_left announce in
        record {
          name = n;
          leaves = l;
          last = k;
          recorded = announce_left-recorded now leaver r known (lt→ltb _ _ fits);
        }) in
    (gone.last, gone.recorded)

module _ (me : Text) where
  announce_left-IsLeaving :
      (now : ℕ) (m : Manager) → IsLeaving me m → IsLeaving me (announce_left now m).0
  unfolding announce_left announce
  announce_left-IsLeaving now m p =
      let (n, l, _, _) =
        announce_event-left now (member_event m.node_id m.address m.incarnation left now) m in
      record { name = n ∙ p.name; leaves = l ∙ p.leaves }

  IsLeaving-IsKept : IsKept (IsLeaving me)
  unfolding begin_leave gossip_sample
  IsLeaving-IsKept = record {
    merge = λ now e m _ p. record {
      name = node_id-merge_event now e _ m ∙ p.name;
      leaves = (merge_event-own now e _ m).0 ∙ p.leaves;
    };
    own = λ now e m p. rw (handle_self_event-leaving now e m p.leaves) p;
    alive = λ now m p. rw (announce_alive-leaving now m p.leaves) p;
    left = λ now m _ p. announce_left-IsLeaving now m p;
    leave = λ m p. record { name = p.name; leaves = refl };
    sample = λ now limit m p. record { name = p.name; leaves = p.leaves };
  }

snapshot-leaving :
    (m : Manager) (members : Dict MemberRecord)
    → m.leaving ≡ true
    → All (λ n. text_eq n.node_id m.node_id ≡ false) (snapshot_of m true members)
unfolding snapshot_of
snapshot-leaving m [] l = tt
snapshot-leaving m ((k, r) ∷ members) l =
    let Others = All (λ (n : NodeInfo). text_eq n.node_id m.node_id ≡ false) in
    let rest = snapshot-leaving m members l in
    if-cases Others (not (is_alive r.state)) (λ _. rest)
      (λ _.
        if-cases Others (text_eq r.node_id m.node_id && m.leaving) (λ _. rest)
          (λ other. (go (text_eq r.node_id m.node_id) (rw (← l) other), rest)))
  where
    go : (b : Bool) → (b && true) ≡ false → b ≡ false
    go b h = ground (arith, h)

-- From the moment that a node begins to leave, its own answers to who is eligible never list it,
-- whatever its manager is told afterwards.
pub get_members_snapshot-leaving :
    (m m' : Manager)
    → Reach (begin_leave m) m'
    → All (λ n. text_eq n.node_id m.node_id ≡ false) (get_members_snapshot m' true)
unfolding begin_leave get_members_snapshot
get_members_snapshot-leaving m m' run =
    let p =
      Reach-IsKept (IsLeaving m.node_id) (IsLeaving-IsKept m.node_id) run
        (record { name = refl; leaves = refl }) in
    subst (λ me. All (λ n. text_eq n.node_id me ≡ false) (snapshot_of m' true m'.members)) p.name
      (snapshot-leaving m' m'.members p.leaves)
