-- ===== src/Membership/SelfState.antt =====
-- node/membership/manager.py: events about the node itself.
use stopan.Prelude.{
  ℕ, ◌+◌, ◌^◌, ◌<◌, ◌≤◌, max, ltb, leb, lt→ltb, ◌==◌, ◌≡◌, refl, inl, inr, true, false, ◌&&◌, ◌||◌,
  List, [], ◌∷◌, ◌++◌, none, some, arith, length, Text, text_eq, text_eq_iff, strip, lookup, insert,
  lookup-insert, Bool-cases, &&-eq-true, ok,
}
use stopan.Membership.Validation.{
  MemberEvent, MemberState, alive, is_suspect, is_dead, is_valid_node_id, is_valid_address,
  is_valid_state, is_valid_member_event,
}
use stopan.Membership.Manager.{
  MemberRecord, Manager, Outcome, incarnation_out_of_range, member_event, gossip_gc, gossip_add,
  set_own, own_record, announce_event, announce, bump_above, refute, handle_self_event, apply_event,
  announce_alive,
}
use stopan.Membership.View.{view}
use stopan.Membership.Steps.{Reach}
use stopan.Membership.Overflow.{announce-overflows, Reach-out_of_range}

-- The event says of the manager's own node, at its address and in no earlier incarnation, that it
-- is under suspicion or dead.
pub record IsAccused (e : MemberEvent) (m : Manager) : Type 0 where
  pub valid : is_valid_member_event e ≡ true
  pub own : text_eq e.node_id m.node_id ≡ true
  pub here : text_eq e.address m.address ≡ true
  pub accuses : (is_suspect e.state || is_dead e.state) ≡ true
  pub current : leb m.incarnation e.incarnation ≡ true

-- The manager runs: it does not leave, its own record is there, and its identity file is its own.
pub record IsRunning (stored : ℕ) (r : MemberRecord) (m : Manager) : Type 0 where
  pub stays : m.leaving ≡ false
  pub recorded : lookup m.node_id m.members ≡ some r
  pub file : m.identity ≡ some (m.node_id, stored)
  pub stripped : strip m.node_id ≡ m.node_id

named : (t : Text) → is_valid_node_id t ≡ true → leb (length (strip t)) 0 ≡ false
unfolding is_valid_node_id
named t v = let (l, _) = &&-eq-true _ _ v in long (length (strip t)) l
  where
    long : (n : ℕ) → (n == 32) ≡ true → leb n 0 ≡ false
    long n h = ground arith

bump_above-running :
    (me : Text) (observed stored : ℕ)
    → strip me ≡ me
    → leb (length (strip me)) 0 ≡ false
    → bump_above me observed (some (me, stored))
      ≡ ok (max stored observed + 1, some (me, max stored observed + 1))
unfolding bump_above
bump_above-running me observed stored s n = rw (n, s, (text_eq_iff me me).1 refl)

-- The event by which a node says that it is alive.
abbrev pub alive_event : ℕ → ℕ → Manager → MemberEvent
alive_event now i m = record {
  node_id = m.node_id;
  address = m.address;
  incarnation = i;
  state = alive;
  ts_ms = now;
}

positive : (i : ℕ) → leb 1 (i + 1) ≡ true
positive i = ground arith

alive_event-valid :
    (now i : ℕ) (e : MemberEvent) (m : Manager)
    → IsAccused e m
    → (is_valid_node_id m.node_id ≡ true)
      × (is_valid_member_event (alive_event now (i + 1) m) ≡ true)
unfolding is_valid_member_event
alive_event-valid now i e m a =
    let (c, _) =
      &&-eq-true (is_valid_node_id e.node_id && is_valid_address e.address && leb 1 e.incarnation) _
        a.valid in
    let (b, _) = &&-eq-true (is_valid_node_id e.node_id && is_valid_address e.address) _ c in
    let (n, d) = &&-eq-true (is_valid_node_id e.node_id) _ b in
    rw (← (text_eq_iff e.node_id m.node_id).0 a.own, ← (text_eq_iff e.address m.address).0 a.here)
      (n, rw (n, d, positive i) (unfold is_valid_state in refl))

handle-accused :
    (now : ℕ) (e : MemberEvent) (m : Manager)
    → m.leaving ≡ false
    → IsAccused e m
    → handle_self_event now e m ≡ refute now (bump_above m.node_id e.incarnation m.identity) m
unfolding handle_self_event
handle-accused now e m l a = elim (Bool-cases (leb (length e.address) 0)) [
  | inl y ↦ rw (y, a.accuses, a.current, l)
  | inr n ↦ rw (n, a.here, a.accuses, a.current, l)
]

gossip_gc-snoc :
    (now ttl : ℕ) (events : List (ℕ × MemberEvent)) (e : MemberEvent)
    → gossip_gc now ttl (events ++ (now, e) ∷ []) ≡ gossip_gc now ttl events ++ (now, e) ∷ []
unfolding gossip_gc
gossip_gc-snoc now ttl [] e = ground arith
gossip_gc-snoc now ttl ((ts, d) ∷ events) e =
    rw (gossip_gc-snoc now ttl events e)
      (elim (Bool-cases (leb now (ts + ttl))) [ inl y ↦ rw y | inr n ↦ rw n ])

-- What an announcement does, if its event is a valid one and fits the protocol.
announce-valid :
    (now : ℕ) (m : Manager) (r : MemberRecord)
    → lookup m.node_id m.members ≡ some r
    → ltb m.incarnation (2 ^ 64) ≡ true
    → is_valid_member_event (alive_event now m.incarnation m) ≡ true
    → announce now alive m ≡ (
      record m {
        members = insert m.node_id (own_record now alive m r) m.members;
        gossip =
            gossip_gc now m.gossip_ttl (m.gossip ++ (now, alive_event now m.incarnation m) ∷ []);
      },
      none,
    )
unfolding announce member_event announce_event set_own gossip_add
announce-valid now m r known fits valid = rw (fits, known, valid)

raised : ℕ → ℕ → Manager → Manager
raised stored observed m = record m {
  incarnation = max stored observed + 1;
  identity = some (m.node_id, max stored observed + 1);
}

apply_event-accused :
    (now stored : ℕ) (e : MemberEvent) (m : Manager) (r : MemberRecord)
    → IsAccused e m
    → IsRunning stored r m
    → apply_event now e m ≡ announce now alive (raised stored e.incarnation m)
unfolding apply_event refute announce_alive raised
apply_event-accused now stored e m r a run =
    let (n, _) = alive_event-valid now 0 e m a in
    rw (
      a.valid,
      a.own,
      handle-accused now e m run.stays a,
      run.file,
      bump_above-running m.node_id e.incarnation stored run.stripped (named m.node_id n),
      run.stays,
    )

higher : (a b : ℕ) → b < max a b + 1
higher a b = ground arith

-- The outcome is that of a refutation.
pub record IsRefuted (now : ℕ) (e : MemberEvent) (m : Manager) (o : Outcome) : Type 0 where
  pub quiet : o.1 ≡ none
  pub above : e.incarnation < o.0.incarnation
  pub saved : o.0.identity ≡ some (m.node_id, o.0.incarnation)
  pub recorded : view m.node_id o.0 ≡ some (o.0.incarnation, 1)
  pub passed_on :
      o.0.gossip
      ≡ gossip_gc now m.gossip_ttl m.gossip ++ (now, alive_event now o.0.incarnation m) ∷ []

-- A valid event that says of the manager's own node, at its own address and in no earlier
-- incarnation, that it is suspect or dead is refuted, if the node does not leave, its own record is
-- there, its identity file can be read and is its own, and the raised incarnation fits in 64 bits:
-- after the call the incarnation is above the event's, the identity file holds it, the node's own
-- record is alive with it, and that is the latest of the node's gossip.
pub apply_event-refutes :
    (now stored : ℕ) (e : MemberEvent) (m : Manager) (r : MemberRecord)
    → IsAccused e m
    → IsRunning stored r m
    → max stored e.incarnation + 1 < 2 ^ 64
    → IsRefuted now e m (apply_event now e m)
unfolding view raised own_record
apply_event-refutes now stored e m r a run fits =
    let (_, valid) = alive_event-valid now (max stored e.incarnation) e m a in
    let m' = raised stored e.incarnation m in
    rw
      (
        apply_event-accused now stored e m r a run,
        announce-valid now m' r run.recorded (lt→ltb _ _ fits) valid,
      )
      (record {
        quiet = refl;
        above = higher stored e.incarnation;
        saved = refl;
        recorded = rw (
          lookup-insert m.node_id m.node_id (own_record now alive m' r) m.members,
          (text_eq_iff m.node_id m.node_id).1 refl,
        );
        passed_on = gossip_gc-snoc now m.gossip_ttl m.gossip _;
      })

-- The outcome is that of a raised incarnation that no message can carry.
pub record IsMute (i : ℕ) (m : Manager) (o : Outcome) : Type 0 where
  pub raised_error : o.1 ≡ some incarnation_out_of_range
  pub raised_to : o.0.incarnation ≡ i
  pub saved : o.0.identity ≡ some (m.node_id, i)
  pub members : o.0.members ≡ m.members
  pub gossip : o.0.gossip ≡ m.gossip
  pub mute :
      (now : ℕ) (state : MemberState) (m' : Manager)
      → Reach o.0 m'
      → announce now state m' ≡ (m', some incarnation_out_of_range)

-- Let a valid event say of the manager's own node, at its own address and in no earlier incarnation,
-- that it is suspect or dead, while the node does not leave, its own record is there, and its
-- identity file can be read and is its own. If the raised incarnation is 2 ^ 64 or more, the call
-- ends with an error after the identity file and the incarnation were raised, with the records of
-- all members and the gossip as they were, and whatever calls the manager serves from then on, an
-- announcement of any state only ends with the same error.
pub apply_event-overflows :
    (now stored : ℕ) (e : MemberEvent) (m : Manager) (r : MemberRecord)
    → IsAccused e m
    → IsRunning stored r m
    → 2 ^ 64 ≤ max stored e.incarnation + 1
    → IsMute (max stored e.incarnation + 1) m (apply_event now e m)
unfolding raised
apply_event-overflows now stored e m r a run over =
    let m' = raised stored e.incarnation m in
    let big = le→not-ltb over in
    rw (apply_event-accused now stored e m r a run, announce-overflows now alive m' big)
      (record {
        raised_error = refl;
        raised_to = refl;
        saved = refl;
        members = refl;
        gossip = refl;
        mute = λ now state c run. announce-overflows now state c (Reach-out_of_range run big);
      })
  where
    le→not-ltb : {a b : ℕ} → a ≤ b → ltb b a ≡ false
    le→not-ltb h = ground arith
