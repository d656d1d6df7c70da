-- ===== src/Membership/View.antt =====
-- How far a manager knows of each node: the incarnation and the rank of the state, without the
-- address and the times of its record, and how events of other nodes add to it.
use stopan.Prelude.{
  ℕ, ltb, ◌≡◌, refl, ap, ◌∙◌, inl, inr, Bool, true, false, ◌&&◌, Option, none, some, arith,
  if◌then◌else◌, Text, text_eq, text_eq_iff, lookup, insert, lookup-insert, Bool-cases,
}
use stopan.Membership.Validation.{
  MemberState, alive, state_order, MemberEvent, is_valid_member_event,
}
use stopan.Membership.Manager.{
  MemberRecord, timed, Manager, new_record_from_event, apply_event_to_record, accept_event,
  merge_event, gossip_add, complete_bootstrap,
}

-- The incarnation of a node and the rank of its state, if the node is known.
abbrev pub Mark : Type 0
Mark = Option (ℕ × ℕ)

abbrev pub mark_of : Option MemberRecord → Mark
mark_of none = none
mark_of (some r) = some (r.incarnation, state_order r.state)

-- By these two, events are compared; the address is left out.
unfoldable pub view : Text → Manager → Mark
view j m = mark_of (lookup j m.members)

-- The later of two beliefs: by incarnation, then by rank.
unfoldable pub join : Mark → Mark → Mark
join none y = y
join (some x) none = some x
join (some (i, s)) (some (k, t)) =
    if ltb i k
    then some (k, t)
    else if ltb k i
    then some (i, s)
    else if ltb s t
    then some (k, t)
    else some (i, s)

pub join_comm : (x y : Mark) → join x y ≡ join y x
unfolding join
join_comm none none = refl
join_comm none (some y) = refl
join_comm (some x) none = refl
join_comm (some (i, s)) (some (k, t)) = ground arith

pub join_assoc : (x y z : Mark) → join (join x y) z ≡ join x (join y z)
unfolding join
join_assoc none y z = refl
join_assoc (some x) none z = refl
join_assoc (some (i, s)) (some (k, t)) none = ground arith
join_assoc (some (i, s)) (some (k, t)) (some (l, u)) = ground arith

pub join_idem : (x : Mark) → join x x ≡ x
unfolding join
join_idem none = refl
join_idem (some (i, s)) = ground arith

abbrev pub event_mark : MemberEvent → Mark
event_mark e = some (e.incarnation, state_order e.state)

-- What an event adds to the belief about `j`.
unfoldable pub absorb : Text → MemberEvent → Mark → Mark
absorb j e v = if is_valid_member_event e && text_eq e.node_id j then join v (event_mark e) else v

-- Merging either leaves the manager alone or accepts the event with some record.
pub merge_event-cases {κ} :
    (P : Manager → Type κ) (now : ℕ) (e : MemberEvent) (o : Option MemberRecord) (m : Manager)
    → P m
    → ((r : MemberRecord) → P (accept_event now e r m))
    → P (merge_event now e o m)
unfolding merge_event
merge_event-cases P now e none m keep accept = accept _
merge_event-cases P now e (some r) m keep accept =
    elim (Bool-cases (ltb r.incarnation e.incarnation)) [
      | inl a ↦ rw a (accept _)
      | inr a ↦ elim (Bool-cases (ltb e.incarnation r.incarnation)) [
        | inl b ↦ rw (a, b) keep
        | inr b ↦ elim (Bool-cases (ltb (state_order r.state) (state_order e.state))) [
          | inl c ↦ rw (a, b, c) (accept _)
          | inr c ↦ rw (a, b, c) keep
        ]
      ]
    ]

pub members-accept_event :
    (now : ℕ) (e : MemberEvent) (r : MemberRecord) (m : Manager)
    → (accept_event now e r m).members ≡ insert e.node_id r m.members
unfolding accept_event gossip_add complete_bootstrap
members-accept_event now e r m = ground arith

view-accept_event :
    (j : Text) (now : ℕ) (e : MemberEvent) (r : MemberRecord) (m : Manager)
    → view j (accept_event now e r m)
      ≡ (if text_eq e.node_id j then some (r.incarnation, state_order r.state) else view j m)
view-accept_event j now e r m =
    unfold view in
    rw (members-accept_event now e r m, lookup-insert e.node_id j r m.members)
      (elim (Bool-cases (text_eq e.node_id j)) [ inl y ↦ rw y | inr n ↦ rw n ])

timed_lem :
    (now : ℕ) (st : MemberState) (r : MemberRecord)
    → ((timed now st r).incarnation ≡ r.incarnation) × ((timed now st r).state ≡ r.state)
timed_lem now alive r = (refl, refl)
timed_lem now _ r = (refl, refl)

-- The record that an event makes of an older one of the same node.
mark-apply_event_to_record :
    (now : ℕ) (replace : Bool) (e : MemberEvent) (r : MemberRecord)
    → mark_of (some (apply_event_to_record now replace e r))
      ≡ some ((if replace then e.incarnation else r.incarnation), state_order e.state)
unfolding apply_event_to_record
mark-apply_event_to_record now true e r =
    let (i, s) =
      timed_lem now e.state
        (record r { incarnation = e.incarnation; address = e.address; state = e.state }) in
    rw (i, s)
mark-apply_event_to_record now false e r =
    let (i, s) = timed_lem now e.state (record r { state = e.state }) in rw (i, s)

accepted :
    (j : Text) (now : ℕ) (e : MemberEvent) (r : MemberRecord) (m : Manager) (v : Mark)
    → (text_eq e.node_id j ≡ true → mark_of (some r) ≡ v)
    → view j (accept_event now e r m) ≡ (if text_eq e.node_id j then v else view j m)
accepted j now e r m v h =
    rw (view-accept_event j now e r m)
      (elim (Bool-cases (text_eq e.node_id j)) [ inl y ↦ rw y (h y) | inr n ↦ rw n ])

-- Merging an event keeps the later of the two beliefs, and changes no other node's.
pub view-merge_event :
    (j : Text) (now : ℕ) (e : MemberEvent) (o : Option MemberRecord) (m : Manager)
    → lookup e.node_id m.members ≡ o
    → view j (merge_event now e o m)
      ≡ (if text_eq e.node_id j then join (mark_of o) (event_mark e) else view j m)
unfolding merge_event
view-merge_event j now e none m h =
    accepted j now e _ m _ (λ _. unfold new_record_from_event join in refl)
view-merge_event j now e (some r) m h = elim (Bool-cases (ltb r.incarnation e.incarnation)) [
  | inl newer ↦ rw newer (
      accepted j now e _ m _
        (λ _. mark-apply_event_to_record now true e r ∙ unfold join in rw newer))
  | inr not_newer ↦ elim (Bool-cases (ltb e.incarnation r.incarnation)) [
    | inl older ↦ rw (not_newer, older) (kept j e r m h (unfold join in rw (not_newer, older)))
    | inr same ↦ elim (Bool-cases (ltb (state_order r.state) (state_order e.state))) [
      | inl worse ↦
          rw (not_newer, same, worse)
            (accepted j now e _ m _
              (λ _. mark-apply_event_to_record now false e r ∙ unfold join in ground arith))
      | inr no_worse ↦
          rw (not_newer, same, no_worse)
            (kept j e r m h (unfold join in rw (not_newer, same, no_worse)))
    ]
  ]
]
  where
    kept :
        (j : Text) (e : MemberEvent) (r : MemberRecord) (m : Manager)
        → lookup e.node_id m.members ≡ some r
        → join (mark_of (some r)) (event_mark e) ≡ mark_of (some r)
        → view j m
          ≡ (if text_eq e.node_id j then join (mark_of (some r)) (event_mark e) else view j m)
    kept j e r m h stays = elim (Bool-cases (text_eq e.node_id j)) [
      | inl y ↦
          let same : e.node_id ≡ j = (text_eq_iff e.node_id j).0 y in
          rw (y, stays) (unfold view in rw (← same) (ap mark_of h))
      | inr n ↦ rw n
    ]

node_id-accept_event :
    (now : ℕ) (e : MemberEvent) (r : MemberRecord) (m : Manager)
    → (accept_event now e r m).node_id ≡ m.node_id
unfolding accept_event gossip_add complete_bootstrap
node_id-accept_event now e r m = ground arith

pub node_id-merge_event :
    (now : ℕ) (e : MemberEvent) (o : Option MemberRecord) (m : Manager)
    → (merge_event now e o m).node_id ≡ m.node_id
node_id-merge_event now e o m =
    merge_event-cases (λ m'. m'.node_id ≡ m.node_id) now e o m refl
      (λ r. node_id-accept_event now e r m)
