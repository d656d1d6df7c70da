-- ===== src/Membership/Tests.antt =====
-- A cluster of two nodes, as one of them sees it.
use mathlib.Core.List.Perm
use stopan.Prelude.{
  ℕ, ◌+◌, ◌-◌, ◌^◌, max, ◌≡◌, refl, [], ◌∷◌, none, some, true, false, arith, All, replicate, leb,
  strip, Text, codes, text_eq, lookup, if◌then◌else◌, inl, inr, Bool-cases,
}
use stopan.Membership.Validation.{
  MemberEvent, MemberState, alive, suspect, dead, is_valid_member_event,
}
use stopan.Membership.Manager.{
  MemberRecord, Manager, apply_event, apply_events, apply_gossip, announce_left, begin_leave,
  get_members_snapshot,
}
use stopan.Membership.View.{view, join}
use stopan.Membership.Convergence.{IsAddressed, apply_events-perm}
use stopan.Membership.Addresses.{belief, KnowsAddresses}
use stopan.Membership.Steps.{gossiped, start, step}
use stopan.Membership.History.{Reach-view}
use stopan.Membership.SelfState.{
  IsAccused, IsRunning, IsRefuted, IsMute, apply_event-refutes, apply_event-overflows,
}
use stopan.Membership.Leaving.{Reach-left, get_members_snapshot-leaving}
use stopan.Prelude.{ok, err, ◌++◌}
use stopan.Membership.Validation.{is_valid_node_id}
use stopan.Membership.Identity.{
  absent, holds, done, not_replaced, raised_after, invalid_lines, contents, read_unlocked,
  load_for_startup, started,
}
use stopan.Membership.Identity.Lines.{load_for_startup-started}

abbrev me : Text
me = replicate 32 b'a'

abbrev peer : Text
peer = replicate 32 b'b'

abbrev own : MemberRecord
own = record {
  node_id = me;
  address = codes "h:1";
  incarnation = 1;
  state = alive;
  last_seen = 0;
  suspect_since = none;
}

-- A manager in its first incarnation, for a timeout of 30.
abbrev m : Manager
m = record {
  node_id = me;
  address = codes "h:1";
  incarnation = 1;
  members = (me, own) ∷ [];
  gossip = [];
  leaving = false;
  bootstrap_complete = false;
  next_bootstrap_retry_at = none;
  identity = some (me, 1);
  gossip_ttl = 60;
  max_gossip_events = 8;
  suspect_timeout = 30;
}

abbrev of_peer : ℕ → MemberState → MemberEvent
of_peer i state = record {
  node_id = peer;
  address = codes "h:2";
  incarnation = i;
  state = state;
  ts_ms = 0;
}

abbrev of_me : ℕ → MemberEvent
of_me i = record {
  node_id = me;
  address = codes "h:1";
  incarnation = i;
  state = suspect;
  ts_ms = 0;
}

-- The address of each node of the cluster; the peer has another one from its second incarnation on.
abbrev address_of : Text → ℕ → Text
address_of j i = if text_eq me j then codes "h:1" else if leb 2 i then codes "h:3" else codes "h:2"

m-KnowsAddresses : KnowsAddresses address_of m
unfolding lookup
m-KnowsAddresses = record {
  known = λ j r h. elim (Bool-cases (text_eq me j)) [
    | inl y ↦ let this : own ≡ r = cc (rw y at h) in rw (y, ← this) refl
    | inr n ↦ let none_here : none ≡ some r = rw n at h in absurd (cc none_here)
  ];
}

abbrev moved : MemberEvent
moved = record (of_peer 2 alive) { address = codes "h:3" }

failed : IsAddressed address_of me (of_peer 1 dead)
unfolding text_eq
failed = (refl, refl)

recovered : IsAddressed address_of me moved
unfolding text_eq
recovered = (refl, refl)

-- The peer recovers at another address before it is heard that it has failed.
apply_events-perm_example :
    ((apply_events 5 (of_peer 1 dead ∷ moved ∷ []) m).1 ≡ none)
    × ((apply_events 9 (moved ∷ of_peer 1 dead ∷ []) m).1 ≡ none)
    × (belief peer (apply_events 5 (of_peer 1 dead ∷ moved ∷ []) m).0
        ≡ belief peer (apply_events 9 (moved ∷ of_peer 1 dead ∷ []) m).0)
apply_events-perm_example =
    apply_events-perm address_of 5 9 m (of_peer 1 dead ∷ moved ∷ []) (moved ∷ of_peer 1 dead ∷ [])
      peer m-KnowsAddresses (Perm.swap moved (of_peer 1 dead) []) (failed, (recovered, tt))
      (recovered, (failed, tt))

-- The peer fails, and then a late message says that it was alive.
abbrev after : Manager
after = (apply_gossip 8 (of_peer 3 alive ∷ []) (apply_gossip 5 (of_peer 3 dead ∷ []) m).0).0

Reach-view_example : join (view peer m) (view peer after) ≡ view peer after
unfolding text_eq
Reach-view_example =
    Reach-view m after peer refl
      (step (step start (gossiped 5 (of_peer 3 dead ∷ []))) (gossiped 8 (of_peer 3 alive ∷ [])))

accused : (i : ℕ) → leb 1 i ≡ true → IsAccused (of_me i) m
unfolding is_valid_member_event text_eq
accused i h = record { valid = rw h; own = refl; here = refl; accuses = refl; current = h }

running : IsRunning 1 own m
unfolding lookup text_eq strip
running = record { stays = refl; recorded = refl; file = refl; stripped = refl }

apply_event-refutes_example : IsRefuted 5 (of_me 7) m (apply_event 5 (of_me 7) m)
apply_event-refutes_example =
    apply_event-refutes 5 1 (of_me 7) m own (accused 7 refl) running (omega arith)

apply_event-overflows_example :
    IsMute (max 1 (2 ^ 64 - 1) + 1) m (apply_event 5 (of_me (2 ^ 64 - 1)) m)
apply_event-overflows_example =
    apply_event-overflows 5 1 (of_me (2 ^ 64 - 1)) m own (accused (2 ^ 64 - 1) refl) running
      (omega arith)

Reach-left_example :
    let gone = (apply_gossip 9 (of_me 7 ∷ []) (announce_left 5 (begin_leave m)).0).0 in
    (gone.incarnation ≡ 1) × (view me gone ≡ some (1, 4))
unfolding lookup text_eq
Reach-left_example =
    Reach-left 5 m (apply_gossip 9 (of_me 7 ∷ []) (announce_left 5 (begin_leave m)).0).0 own refl
      (omega arith) (step start (gossiped 9 (of_me 7 ∷ [])))

get_members_snapshot-leaving_example :
    All
      (λ n. text_eq n.node_id me ≡ false)
      (get_members_snapshot (apply_gossip 9 (of_me 7 ∷ []) (begin_leave m)).0 true)
get_members_snapshot-leaving_example =
    get_members_snapshot-leaving m (apply_gossip 9 (of_me 7 ∷ []) (begin_leave m)).0
      (step start (gossiped 9 (of_me 7 ∷ [])))

-- Three start-ups, the second of which cannot write, and then another.
load_for_startup-started_example :
    load_for_startup done peer
      (started ((done, me) ∷ (not_replaced, peer) ∷ (raised_after, peer) ∷ []) absent)
    ≡ (ok (record { node_id = me; incarnation = 3 }), holds (contents me 3))
unfolding is_valid_node_id strip
load_for_startup-started_example =
    load_for_startup-started done me peer ((not_replaced, peer) ∷ (raised_after, peer) ∷ [])
      (refl, refl) refl

-- A file with the line ends of another system.
foreign_lines :
    read_unlocked (holds (me ++ codes "\r\n +1_2 \r\n"))
    ≡ ok (record { node_id = me; incarnation = 12 })
unfolding read_unlocked
foreign_lines = refl

one_line : read_unlocked (holds (me ++ codes " 12\n")) ≡ err invalid_lines
unfolding read_unlocked
one_line = refl
