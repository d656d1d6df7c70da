-- ===== src/Membership/Overflow.antt =====
-- node/membership/manager.py: a manager whose incarnation no message can carry.
use stopan.Prelude.{
  ℕ, ◌^◌, ltb, leb, ◌≡◌, refl, true, false, not, ◌&&◌, ◌||◌, Option, none, some, if-cases, arith,
  length, Text, text_eq, strip, Result, &&-eq-true,
}
use stopan.Membership.Validation.{MemberEvent, MemberState, alive, left, is_suspect, is_dead}
use stopan.Membership.Manager.{
  MemberRecord, Manager, Outcome, MembershipError, incarnation_out_of_range, member_event,
  gossip_add, gossip_sample, complete_bootstrap, accept_event, merge_event, bump_above,
  announce_event, announce, announce_alive, announce_left, refute, handle_self_event, begin_leave,
}
use stopan.Membership.View.{merge_event-cases}
use stopan.Membership.Steps.{Reach, Reach-IsKept}

abbrev IsOutOfRange : Manager → Type 0
IsOutOfRange m = ltb m.incarnation (2 ^ 64) ≡ false

pub announce-overflows :
    (now : ℕ) (state : MemberState) (m : Manager)
    → ltb m.incarnation (2 ^ 64) ≡ false
    → announce now state m ≡ (m, some incarnation_out_of_range)
unfolding announce member_event announce_event
announce-overflows now state m f = rw f

incarnation-merge_event :
    (now : ℕ) (e : MemberEvent) (o : Option MemberRecord) (m : Manager)
    → (merge_event now e o m).incarnation ≡ m.incarnation
unfolding accept_event gossip_add complete_bootstrap
incarnation-merge_event now e o m =
    merge_event-cases (λ m'. m'.incarnation ≡ m.incarnation) now e o m refl (λ r. accepted r)
  where
    accepted : (r : MemberRecord) → (accept_event now e r m).incarnation ≡ m.incarnation
    accepted r = ground arith

announce_alive-IsOutOfRange :
    (now : ℕ) (m : Manager) → IsOutOfRange m → IsOutOfRange (announce_alive now m).0
unfolding announce_alive
announce_alive-IsOutOfRange now m p =
    if-cases (λ (o : Outcome). IsOutOfRange o.0) m.leaving (λ _. p)
      (λ _. rw (announce-overflows now alive m p) p)

-- After a try to raise the incarnation.
abbrev Kept : ℕ → Manager → Result MembershipError (ℕ × Option (Text × ℕ)) → Type 0
Kept now m b = IsOutOfRange (refute now b m).0

-- A refutation only raises the incarnation.
refute-IsOutOfRange :
    (now observed : ℕ) (m : Manager)
    → leb m.incarnation observed ≡ true
    → IsOutOfRange m
    → IsOutOfRange (refute now (bump_above m.node_id observed m.identity) m).0
unfolding refute bump_above
refute-IsOutOfRange now observed m higher p = bumped m.identity
  where
    bumped :
        (file : Option (Text × ℕ))
        → IsOutOfRange (refute now (bump_above m.node_id observed file) m).0
    bumped none = if-cases (Kept now m) (leb (length (strip m.node_id)) 0) (λ _. p) (λ _. p)
    bumped (some (stored_id, stored)) =
        if-cases (Kept now m) (leb (length (strip m.node_id)) 0) (λ _. p)
          (λ _.
            if-cases (Kept now m) (not (text_eq stored_id (strip m.node_id))) (λ _. p)
              (λ _. announce_alive-IsOutOfRange now _ (ground (arith, higher, p))))

handle_self_event-IsOutOfRange :
    (now : ℕ) (e : MemberEvent) (m : Manager)
    → IsOutOfRange m
    → IsOutOfRange (handle_self_event now e m).0
unfolding handle_self_event
handle_self_event-IsOutOfRange now e m p =
    let Kept = λ (o : Outcome). IsOutOfRange o.0 in
    if-cases Kept m.leaving (λ _. p)
      (λ _.
        if-cases Kept (not (leb (length e.address) 0) && not (text_eq e.address m.address)) (λ _. p)
          (λ _.
            if-cases Kept
              ((is_suspect e.state || is_dead e.state) && leb m.incarnation e.incarnation)
              (λ h.
                refute-IsOutOfRange now e.incarnation m
                  (&&-eq-true (is_suspect e.state || is_dead e.state) _ h).1 p)
              (λ _. p)))

-- No call brings the incarnation back into the range of the protocol.
pub Reach-out_of_range :
    {m m' : Manager}
    → Reach m m'
    → ltb m.incarnation (2 ^ 64) ≡ false
    → ltb m'.incarnation (2 ^ 64) ≡ false
unfolding begin_leave gossip_sample announce_left
Reach-out_of_range = Reach-IsKept IsOutOfRange (record {
  merge = λ now e m _ p. rw (incarnation-merge_event now e _ m) p;
  own = handle_self_event-IsOutOfRange;
  alive = announce_alive-IsOutOfRange;
  left = λ now m _ p. rw (announce-overflows now left m p) p;
  leave = λ m p. p;
  sample = λ now limit m p. p;
})
