-- ===== src/Membership/Steps.antt =====
-- The runs of a manager: what its calls do to it, one after another, in any order.
use stopan.Prelude.{
  ℕ, ◌≡◌, inl, inr, true, false, List, [], ◌∷◌, none, some, text_eq, lookup, Bool-cases, Result, ok,
  err,
}
use stopan.Membership.Validation.{
  MemberEvent, MemberState, NodeInfo, is_valid_member_event, is_valid_nodeinfo,
}
use stopan.Membership.Manager.{
  MemberRecord, Manager, Outcome, MembershipError, gossip_sample, merge_event, handle_self_event,
  apply_event, apply_events, apply_gossip, apply_made, apply_nodeinfo, mark, mark_all_dead,
  expire_suspects, announce_alive, announce_left, begin_leave,
}

-- One call. Gossip arrives in messages and in the answers to the node's own, and `marked` is a
-- probe that nobody answered.
pub data Step (m : Manager) : Manager → Type 0 where
  gossiped : (now : ℕ) (es : List MemberEvent) → Step m (apply_gossip now es m).0
  introduced :
      (now : ℕ) (node : NodeInfo) (state : MemberState) → Step m (apply_nodeinfo now node state m).0
  marked :
      (now : ℕ) (state : MemberState) (r : MemberRecord)
      → Step m (mark now state r.node_id r.address r.incarnation m).0
  timed_out : (now : ℕ) → Step m (expire_suspects now m).0
  announced_alive : (now : ℕ) → Step m (announce_alive now m).0
  began_to_leave : Step m (begin_leave m)
  announced_left : (now : ℕ) → m.leaving ≡ true → Step m (announce_left now m).0
  sampled : (now limit : ℕ) → Step m (gossip_sample now limit m).1

pub data Reach (m : Manager) : Manager → Type 0 where
  start : Reach m m
  step : {m' m'' : Manager} → Reach m m' → Step m' m'' → Reach m m''

-- What every call leaves true: the three ways in which a single event changes the manager, and the
-- calls that are no events.
pub record IsKept {κ} (P : Manager → Type κ) : Type κ where
  pub merge :
      (now : ℕ) (e : MemberEvent) (m : Manager)
      → text_eq e.node_id m.node_id ≡ false
      → P m
      → P (merge_event now e (lookup e.node_id m.members) m)
  pub own : (now : ℕ) (e : MemberEvent) (m : Manager) → P m → P (handle_self_event now e m).0
  pub alive : (now : ℕ) (m : Manager) → P m → P (announce_alive now m).0
  pub left : (now : ℕ) (m : Manager) → m.leaving ≡ true → P m → P (announce_left now m).0
  pub leave : (m : Manager) → P m → P (begin_leave m)
  pub sample : (now limit : ℕ) (m : Manager) → P m → P (gossip_sample now limit m).1

module _ {κ} (P : Manager → Type κ) (k : IsKept P) where
  apply_event-IsKept : (now : ℕ) (e : MemberEvent) (m : Manager) → P m → P (apply_event now e m).0
  unfolding apply_event
  apply_event-IsKept now e m p = elim (Bool-cases (is_valid_member_event e)) [
    | inr n ↦ rw n p
    | inl y ↦ elim (Bool-cases (text_eq e.node_id m.node_id)) [
      | inl own ↦ rw (y, own) (k.own now e m p)
      | inr other ↦ rw (y, other) (k.merge now e m other p)
    ]
  ]

  apply_made-IsKept :
      (now : ℕ) (e : Result MembershipError MemberEvent) (m : Manager)
      → P m
      → P (apply_made now e m).0
  unfolding apply_made
  apply_made-IsKept now (err x) m p = p
  apply_made-IsKept now (ok e) m p = apply_event-IsKept now e m p

  -- A loop goes on where its step raised nothing.
  resume :
      (o : Outcome) (rest : Manager → Outcome)
      → P o.0
      → ((m : Manager) → P m → P (rest m).0)
      → P (elim o.1 as (λ _. Outcome) [ some x ↦ (o.0, some x) | none ↦ rest o.0 ]).0
  resume (m, some x) rest p h = p
  resume (m, none) rest p h = h m p

  apply_events-IsKept :
      (now : ℕ) (es : List MemberEvent) (m : Manager) → P m → P (apply_events now es m).0
  unfolding apply_events
  apply_events-IsKept now [] m p = p
  apply_events-IsKept now (e ∷ es) m p =
      resume (apply_event now e m) (apply_events now es) (apply_event-IsKept now e m p)
        (apply_events-IsKept now es)

  mark_all_dead-IsKept :
      (now : ℕ) (rs : List MemberRecord) (m : Manager) → P m → P (mark_all_dead now rs m).0
  unfolding mark_all_dead mark
  mark_all_dead-IsKept now [] m p = p
  mark_all_dead-IsKept now (r ∷ rs) m p =
      resume (mark now MemberState.dead r.node_id r.address r.incarnation m) (mark_all_dead now rs)
        (apply_made-IsKept now _ m p) (mark_all_dead-IsKept now rs)

  Step-IsKept : {m m' : Manager} → Step m m' → P m → P m'
  unfolding apply_gossip apply_nodeinfo mark expire_suspects
  Step-IsKept (gossiped now es) p = apply_events-IsKept now _ _ p
  Step-IsKept {m} (introduced now node state) p = elim (Bool-cases (is_valid_nodeinfo node)) [
    | inl y ↦ rw y (apply_made-IsKept now _ m p)
    | inr n ↦ rw n p
  ]
  Step-IsKept (marked now state r) p = apply_made-IsKept now _ _ p
  Step-IsKept (timed_out now) p = mark_all_dead-IsKept now _ _ p
  Step-IsKept (announced_alive now) p = k.alive now _ p
  Step-IsKept began_to_leave p = k.leave _ p
  Step-IsKept (announced_left now l) p = k.left now _ l p
  Step-IsKept (sampled now limit) p = k.sample now limit _ p

  pub Reach-IsKept : {m m' : Manager} → Reach m m' → P m → P m'
  Reach-IsKept start p = p
  Reach-IsKept (step r s) p = Step-IsKept s (Reach-IsKept r p)
