-- ===== src/Membership/History.antt =====
-- node/membership/manager.py: what a node believes of another one over a run.
use stopan.Prelude.{
  ℕ, ◌≡◌, refl, sym, ◌∙◌, inl, inr, false, not, ◌&&◌, ◌||◌, length, leb, Option, none, some, Text,
  text_eq, text_eq_iff, lookup, lookup-insert, Bool-cases, if-cases, arith, Result, ok, err,
}
use stopan.Membership.Validation.{MemberEvent, MemberState, left, alive, is_suspect, is_dead}
use stopan.Membership.Manager.{
  MemberRecord, Manager, Outcome, MembershipError, member_event, gossip_sample, gossip_add,
  merge_event, set_own, own_record, announce_event, announce, bump_above, refute, handle_self_event,
  announce_alive, announce_left, begin_leave,
}
use stopan.Membership.View.{
  Mark, mark_of, view, node_id-merge_event, join, join_assoc, join_idem, event_mark,
  view-merge_event,
}
use stopan.Membership.Steps.{Reach, IsKept, Reach-IsKept}

-- The manager of `me` in which the belief about `j` is at least `v`.
record IsPast (me j : Text) (v : Mark) (m : Manager) : Type 0 where
  pub name : m.node_id ≡ me
  pub past : join v (view j m) ≡ view j m

gossip_add-fields :
    (now : ℕ) (e : MemberEvent) (m : Manager)
    → ((gossip_add now e m).node_id ≡ m.node_id) × ((gossip_add now e m).members ≡ m.members)
unfolding gossip_add
gossip_add-fields now e m = ground arith

-- Announcing changes the own record only.
announce-others :
    (now : ℕ) (state : MemberState) (j : Text) (m : Manager)
    → text_eq m.node_id j ≡ false
    → ((announce now state m).0.node_id ≡ m.node_id) × (view j (announce now state m).0 ≡ view j m)
unfolding announce announce_event set_own view
announce-others now state j m f = go (member_event m.node_id m.address m.incarnation state now)
  where
    stored :
        (o : Option MemberRecord)
        → ((set_own now state o m).node_id ≡ m.node_id)
          × (view j (set_own now state o m) ≡ view j m)
    stored none = (refl, refl)
    stored (some r) = (refl, rw (lookup-insert m.node_id j (own_record now state m r) m.members, f))

    go :
        (r : Result MembershipError MemberEvent)
        → ((announce_event now state r m).0.node_id ≡ m.node_id)
          × (view j (announce_event now state r m).0 ≡ view j m)
    go (err e) = (refl, refl)
    go (ok e) =
        let (n, ms) = gossip_add-fields now e (set_own now state (lookup m.node_id m.members) m) in
        let (n', ms') = stored (lookup m.node_id m.members) in (n ∙ n', rw ms ms')

-- An event about the node itself either changes nothing or is refuted.
pub handle_self_event-cases {κ} :
    (Q : Outcome → Type κ) (now : ℕ) (e : MemberEvent) (m : Manager)
    → Q (m, none)
    → (m.leaving ≡ false → Q (refute now (bump_above m.node_id e.incarnation m.identity) m))
    → Q (handle_self_event now e m)
unfolding handle_self_event
handle_self_event-cases Q now e m q h =
    if-cases Q m.leaving (λ _. q)
      (λ n.
        if-cases Q (not (leb (length e.address) 0) && not (text_eq e.address m.address)) (λ _. q)
          (λ _.
            if-cases Q ((is_suspect e.state || is_dead e.state) && leb m.incarnation e.incarnation)
              (λ _. h n) (λ _. q)))

module _ (me j : Text) (v : Mark) (f : text_eq me j ≡ false) where
  announce-IsPast :
      (now : ℕ) (state : MemberState) (m : Manager)
      → IsPast me j v m
      → IsPast me j v (announce now state m).0
  announce-IsPast now state m p =
      let (n, w) = announce-others now state j m (rw p.name f) in
      record { name = n ∙ p.name; past = rw w p.past }

  announce_alive-IsPast :
      (now : ℕ) (m : Manager) → IsPast me j v m → IsPast me j v (announce_alive now m).0
  unfolding announce_alive
  announce_alive-IsPast now m p =
      if-cases (λ (o : Outcome). IsPast me j v o.0) m.leaving (λ _. p)
        (λ _. announce-IsPast now alive m p)

  refute-IsPast :
      (now : ℕ) (r : Result MembershipError (ℕ × Option (Text × ℕ))) (m : Manager)
      → IsPast me j v m
      → IsPast me j v (refute now r m).0
  unfolding refute
  refute-IsPast now (err e) m p = p
  refute-IsPast now (ok (i, file)) m p =
      announce_alive-IsPast now (record m { incarnation = i; identity = file })
        (record { name = p.name; past = unfold view in p.past })

  handle_self_event-IsPast :
      (now : ℕ) (e : MemberEvent) (m : Manager)
      → IsPast me j v m
      → IsPast me j v (handle_self_event now e m).0
  handle_self_event-IsPast now e m p =
      handle_self_event-cases (λ o. IsPast me j v o.0) now e m p (λ _. refute-IsPast now _ m p)

  merge_event-IsPast :
      (now : ℕ) (e : MemberEvent) (m : Manager)
      → IsPast me j v m
      → IsPast me j v (merge_event now e (lookup e.node_id m.members) m)
  merge_event-IsPast now e m p = record {
    name = node_id-merge_event now e _ m ∙ p.name;
    past = rw (view-merge_event j now e _ m refl) (elim (Bool-cases (text_eq e.node_id j)) [
      | inl y ↦
          let same : e.node_id ≡ j = (text_eq_iff e.node_id j).0 y in
          let here : mark_of (lookup e.node_id m.members) ≡ view j m = unfold view in rw same in
          rw (y, here) (sym (join_assoc v (view j m) (event_mark e)) ∙ rw p.past)
      | inr n ↦ rw n p.past
    ]);
  }

  IsPast-IsKept : IsKept (IsPast me j v)
  unfolding begin_leave gossip_sample view announce_left
  IsPast-IsKept = record {
    merge = λ now e m _ p. merge_event-IsPast now e m p;
    own = handle_self_event-IsPast;
    alive = announce_alive-IsPast;
    left = λ now m _ p. announce-IsPast now left m p;
    leave = λ m p. record { name = p.name; past = p.past };
    sample = λ now limit m p. record { name = p.name; past = p.past };
  }

-- Whatever calls a manager serves, its belief about another node is never replaced by an earlier
-- one: not by one of a lower incarnation, and in one incarnation not by one of lower rank.
pub Reach-view :
    (m m' : Manager) (j : Text)
    → text_eq m.node_id j ≡ false
    → Reach m m'
    → join (view j m) (view j m') ≡ view j m'
Reach-view m m' j f r =
    (Reach-IsKept (IsPast m.node_id j (view j m)) (IsPast-IsKept m.node_id j (view j m) f) r
      (record { name = refl; past = join_idem (view j m) })).past
