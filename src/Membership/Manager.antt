-- ===== src/Membership/Manager.antt =====
-- node/membership/manager.py with the buffer of node/membership/gossip.py and the identity file of
-- node/identity.py. Times are clock ticks, and `now` is what the clock shows during a call. The
-- identity file is its two parsed lines, or `none` where it cannot be read; writing it succeeds.
-- RPCs are not modelled: what a peer answers arrives as events. Printed warnings are left out.
use stopan.Prelude.{
  ℕ, ◌+◌, ◌-◌, ◌^◌, max, ltb, leb, ◌==◌, Bool, true, false, not, ◌&&◌, ◌||◌, List, [], ◌∷◌, ◌++◌,
  map, Option, none, some, if◌then◌else◌, length, drop, Text, text_eq, strip, Dict, lookup, insert,
  Result, ok, err,
}
use stopan.Membership.Validation.{
  MemberState, alive, suspect, dead, left, state_order, is_alive, is_suspect, is_dead, MemberEvent,
  NodeInfo, is_valid_nodeinfo, is_valid_member_event, limited_gossip,
}

pub record MemberRecord : Type 0 where
  pub node_id : Text
  pub address : Text
  pub incarnation : ℕ
  pub state : MemberState
  pub last_seen : ℕ
  pub suspect_since : Option ℕ

-- What can be raised: the identity file is missing or of another node, or a number does not fit
-- the protocol's 64-bit field.
pub data MembershipError : Type 0 where
  empty_node_id unreadable_identity other_identity incarnation_out_of_range : MembershipError

pub record Manager : Type 0 where
  pub node_id : Text
  pub address : Text
  pub incarnation : ℕ
  pub members : Dict MemberRecord
  pub gossip : List (ℕ × MemberEvent)
  pub leaving : Bool
  pub bootstrap_complete : Bool
  pub next_bootstrap_retry_at : Option ℕ
  pub identity : Option (Text × ℕ)
  pub gossip_ttl : ℕ
  pub max_gossip_events : ℕ
  pub suspect_timeout : ℕ

-- A call: the state after it, and the exception that ended it, if any.
abbrev pub Outcome : Type 0
Outcome = Manager × Option MembershipError

-- `_member_event`: the constructor of the message refuses what is no `uint64`.
unfoldable pub member_event : Text → Text → ℕ → MemberState → ℕ → Result MembershipError MemberEvent
member_event node_id address incarnation state now =
    if ltb incarnation (2 ^ 64)
    then ok (record {
      node_id = node_id;
      address = address;
      incarnation = incarnation;
      state = state;
      ts_ms = now;
    })
    else err incarnation_out_of_range

-- `GossipBuffer._gc_locked`
unfoldable pub gossip_gc : ℕ → ℕ → List (ℕ × MemberEvent) → List (ℕ × MemberEvent)
gossip_gc now ttl [] = []
gossip_gc now ttl ((ts, event) ∷ events) =
    let rest = gossip_gc now ttl events in if leb now (ts + ttl) then (ts, event) ∷ rest else rest

-- `GossipBuffer.add`
unfoldable pub gossip_add : ℕ → MemberEvent → Manager → Manager
gossip_add now event m =
    if is_valid_member_event event
    then record m { gossip = gossip_gc now m.gossip_ttl (m.gossip ++ (now, event) ∷ []) }
    else m

-- `GossipBuffer.sample`: the latest events, at most `limit`.
unfoldable pub gossip_sample : ℕ → ℕ → Manager → List MemberEvent × Manager
gossip_sample now limit m =
    let events = gossip_gc now m.gossip_ttl m.gossip in
    (
      if limit == 0 then [] else map (λ e. e.1) (drop (length events - limit) events),
      record m { gossip = events },
    )

unfoldable pub new_record_from_event : ℕ → MemberEvent → MemberRecord
new_record_from_event observed_at event = record {
  node_id = event.node_id;
  address = event.address;
  incarnation = event.incarnation;
  state = event.state;
  last_seen = observed_at;
  suspect_since = if is_suspect event.state then some observed_at else none;
}

abbrev pub timed : ℕ → MemberState → MemberRecord → MemberRecord
timed observed_at alive r = record r { last_seen = observed_at; suspect_since = none }
timed observed_at suspect r = record r { suspect_since = some observed_at }
timed observed_at _ r = r

unfoldable pub apply_event_to_record : ℕ → Bool → MemberEvent → MemberRecord → MemberRecord
apply_event_to_record observed_at replace_incarnation event r =
    let r' =
      if replace_incarnation
      then record r {
        incarnation = event.incarnation;
        address = event.address;
        state = event.state;
      }
      else record r { state = event.state } in
    timed observed_at event.state r'

unfoldable pub complete_bootstrap : Manager → Manager
complete_bootstrap m = record m { bootstrap_complete = true; next_bootstrap_retry_at = none }

-- The record that an event has produced is stored and the event passed on.
unfoldable pub accept_event : ℕ → MemberEvent → MemberRecord → Manager → Manager
accept_event now event r m =
    let m' = gossip_add now event (record m { members = insert event.node_id r m.members }) in
    if is_alive event.state then complete_bootstrap m' else m'

-- `apply_event`, from `with self._lock` on, for an event about another node.
unfoldable pub merge_event : ℕ → MemberEvent → Option MemberRecord → Manager → Manager
merge_event now event none m = accept_event now event (new_record_from_event now event) m
merge_event now event (some current) m =
    if ltb current.incarnation event.incarnation
    then accept_event now event (apply_event_to_record now true event current) m
    else if ltb event.incarnation current.incarnation
    then m
    else if ltb (state_order current.state) (state_order event.state)
    then accept_event now event (apply_event_to_record now false event current) m
    else m

-- `NodeIdentityStore.bump_above`: the new incarnation and the file with it.
unfoldable pub bump_above :
    Text → ℕ → Option (Text × ℕ) → Result MembershipError (ℕ × Option (Text × ℕ))
bump_above node_id observed none =
    if leb (length (strip node_id)) 0 then err empty_node_id else err unreadable_identity
bump_above node_id observed (some (stored_id, stored)) =
    if leb (length (strip node_id)) 0
    then err empty_node_id
    else if not (text_eq stored_id (strip node_id))
    then err other_identity
    else ok (max stored observed + 1, some (strip node_id, max stored observed + 1))

-- The local node's own record, written anew.
unfoldable pub own_record : ℕ → MemberState → Manager → MemberRecord → MemberRecord
own_record now state m r = record r {
  incarnation = m.incarnation;
  state = state;
  address = m.address;
  last_seen = now;
  suspect_since = none;
}

-- The statements under the lock; the local node is always a member, so the lookup succeeds.
unfoldable pub set_own : ℕ → MemberState → Option MemberRecord → Manager → Manager
set_own now state none m = m
set_own now state (some r) m = record m {
  members = insert m.node_id (own_record now state m r) m.members;
}

unfoldable pub announce_event :
    ℕ → MemberState → Result MembershipError MemberEvent → Manager → Outcome
announce_event now state (err e) m = (m, some e)
announce_event now state (ok event) m =
    (gossip_add now event (set_own now state (lookup m.node_id m.members) m), none)

unfoldable pub announce : ℕ → MemberState → Manager → Outcome
announce now state m =
    announce_event now state (member_event m.node_id m.address m.incarnation state now) m

unfoldable pub announce_alive : ℕ → Manager → Outcome
announce_alive now m = if m.leaving then (m, none) else announce now alive m

unfoldable pub announce_left : ℕ → Manager → Outcome
announce_left now m = announce now left m

-- The end of `_handle_self_event`: with the raised incarnation the node says that it is alive.
unfoldable pub refute : ℕ → Result MembershipError (ℕ × Option (Text × ℕ)) → Manager → Outcome
refute now (err e) m = (m, some e)
refute now (ok (incarnation, identity)) m =
    announce_alive now (record m { incarnation = incarnation; identity = identity })

unfoldable pub handle_self_event : ℕ → MemberEvent → Manager → Outcome
handle_self_event now event m =
    if m.leaving
    then (m, none)
    else if not (leb (length event.address) 0) && not (text_eq event.address m.address)
    then (m, none)
    else if (is_suspect event.state || is_dead event.state) && leb m.incarnation event.incarnation
    then refute now (bump_above m.node_id event.incarnation m.identity) m
    else (m, none)

unfoldable pub apply_event : ℕ → MemberEvent → Manager → Outcome
apply_event now event m =
    if not (is_valid_member_event event)
    then (m, none)
    else if text_eq event.node_id m.node_id
    then handle_self_event now event m
    else (merge_event now event (lookup event.node_id m.members) m, none)

-- Events one after another; an exception ends the loop.
unfoldable pub apply_events : ℕ → List MemberEvent → Manager → Outcome
apply_events now [] m = (m, none)
apply_events now (event ∷ events) m =
    let (m', raised) = apply_event now event m in
    elim raised [ some e ↦ (m', some e) | none ↦ apply_events now events m' ]

unfoldable pub apply_gossip : ℕ → List MemberEvent → Manager → Outcome
apply_gossip now events m = apply_events now (limited_gossip events m.max_gossip_events) m

unfoldable pub apply_made : ℕ → Result MembershipError MemberEvent → Manager → Outcome
apply_made now (err e) m = (m, some e)
apply_made now (ok event) m = apply_event now event m

unfoldable pub apply_nodeinfo : ℕ → NodeInfo → MemberState → Manager → Outcome
apply_nodeinfo now node state m =
    if not (is_valid_nodeinfo node)
    then (m, none)
    else apply_made now (member_event node.node_id node.address node.incarnation state now) m

-- `_mark_suspect` and `_mark_dead`
unfoldable pub mark : ℕ → MemberState → Text → Text → ℕ → Manager → Outcome
mark now state node_id address incarnation m =
    apply_made now (member_event node_id address incarnation state now) m

abbrev pub waited : ℕ → ℕ → Option ℕ → Bool
waited now timeout none = false
waited now timeout (some since) = leb (since + timeout) now

-- The members that have been under suspicion for the whole timeout.
unfoldable pub expired : ℕ → ℕ → Dict MemberRecord → List MemberRecord
expired now timeout [] = []
expired now timeout ((k, r) ∷ members) =
    let rest = expired now timeout members in
    if is_suspect r.state && waited now timeout r.suspect_since then r ∷ rest else rest

unfoldable pub mark_all_dead : ℕ → List MemberRecord → Manager → Outcome
mark_all_dead now [] m = (m, none)
mark_all_dead now (r ∷ rs) m =
    let (m', raised) = mark now dead r.node_id r.address r.incarnation m in
    elim raised [ some e ↦ (m', some e) | none ↦ mark_all_dead now rs m' ]

unfoldable pub expire_suspects : ℕ → Manager → Outcome
expire_suspects now m = mark_all_dead now (expired now m.suspect_timeout m.members) m

unfoldable pub alive_peers_in : Text → Dict MemberRecord → List MemberRecord
alive_peers_in me [] = []
alive_peers_in me ((k, r) ∷ members) =
    let rest = alive_peers_in me members in
    if not (text_eq r.node_id me) && is_alive r.state then r ∷ rest else rest

unfoldable pub get_alive_peers : Manager → List MemberRecord
get_alive_peers m = alive_peers_in m.node_id m.members

unfoldable pub snapshot_of : Manager → Bool → Dict MemberRecord → List NodeInfo
snapshot_of m eligible_only [] = []
snapshot_of m eligible_only ((k, r) ∷ members) =
    let rest = snapshot_of m eligible_only members in
    if eligible_only && not (is_alive r.state)
    then rest
    else if eligible_only && text_eq r.node_id m.node_id && m.leaving
    then rest
    else record { node_id = r.node_id; address = r.address; incarnation = r.incarnation } ∷ rest

unfoldable pub get_members_snapshot : Manager → Bool → List NodeInfo
get_members_snapshot m eligible_only = snapshot_of m eligible_only m.members

-- The first step of `leave`: from here on the node is no longer eligible.
unfoldable pub begin_leave : Manager → Manager
begin_leave m = record m { leaving = true }

-- `__init__`, for an identifier and an address that pass its checks.
unfoldable pub start_manager : ℕ → Text → Text → ℕ → Option (Text × ℕ) → ℕ → ℕ → ℕ → Manager
start_manager now node_id address incarnation identity gossip_ttl max_gossip_events
      suspect_timeout =
    record {
      node_id = node_id;
      address = address;
      incarnation = max incarnation 1;
      members =
          (
            node_id,
            record {
              node_id = node_id;
              address = address;
              incarnation = max incarnation 1;
              state = alive;
              last_seen = now;
              suspect_since = none;
            },
          )
          ∷ [];
      gossip = [];
      leaving = false;
      bootstrap_complete = false;
      next_bootstrap_retry_at = none;
      identity = identity;
      gossip_ttl = gossip_ttl;
      max_gossip_events = max_gossip_events;
      suspect_timeout = suspect_timeout;
    }
