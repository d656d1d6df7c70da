-- ===== src/Membership/Addresses.antt =====
-- node/membership/manager.py: the address in the record of a member.
use stopan.Prelude.{
  ℕ, ◌≡◌, refl, ap, inl, inr, Bool, true, false, Option, none, some, if◌then◌else◌, Text, text_eq,
  text_eq_iff, lookup, lookup-insert, Bool-cases, ltb, if-cases,
}
use stopan.Membership.Validation.{MemberEvent, MemberState, alive, state_order}
use stopan.Membership.Manager.{
  MemberRecord, Manager, new_record_from_event, timed, apply_event_to_record, accept_event,
  merge_event,
}
use stopan.Membership.View.{Mark, mark_of, view, members-accept_event}

abbrev pub belief_of : Option MemberRecord → Option (ℕ × ℕ × Text)
belief_of none = none
belief_of (some r) = some (r.incarnation, state_order r.state, r.address)

-- What a manager takes for true of `j`: the incarnation, the rank of the state, and the address.
unfoldable pub belief : Text → Manager → Option (ℕ × ℕ × Text)
belief j m = belief_of (lookup j m.members)

-- Every record has the address that `addr` has for its node and incarnation.
pub record KnowsAddresses (addr : Text → ℕ → Text) (m : Manager) : Type 0 where
  pub known :
      (j : Text) (r : MemberRecord) → lookup j m.members ≡ some r → r.address ≡ addr j r.incarnation

module _ (addr : Text → ℕ → Text) where
  -- The event gives the address that `addr` has for its node and incarnation.
  abbrev pub HasAddress : MemberEvent → Type 0
  HasAddress e = e.address ≡ addr e.node_id e.incarnation

  KnowsAddresses-accept_event :
      (now : ℕ) (e : MemberEvent) (r : MemberRecord) (m : Manager)
      → KnowsAddresses addr m
      → r.address ≡ addr e.node_id r.incarnation
      → KnowsAddresses addr (accept_event now e r m)
  KnowsAddresses-accept_event now e r m known new = record {
    known = λ j r' h.
        stored j r'
          (rw (members-accept_event now e r m, lookup-insert e.node_id j r m.members) at h);
  }
    where
      stored :
          (j : Text) (r' : MemberRecord)
          → (if text_eq e.node_id j then some r else lookup j m.members) ≡ some r'
          → r'.address ≡ addr j r'.incarnation
      stored j r' h = elim (Bool-cases (text_eq e.node_id j)) [
        | inl y ↦
            let same : e.node_id ≡ j = (text_eq_iff e.node_id j).0 y in
            let found : some r ≡ some r' = rw y at h in
            let this : r ≡ r' = cc in rw (← this, ← same) new
        | inr n ↦ known.known j r' (rw n at h)
      ]

  timed-address :
      (now : ℕ) (st : MemberState) (r : MemberRecord)
      → ((timed now st r).incarnation ≡ r.incarnation) × ((timed now st r).address ≡ r.address)
  timed-address now alive r = (refl, refl)
  timed-address now _ r = (refl, refl)

  apply_event_to_record-address :
      (now : ℕ) (replace : Bool) (e : MemberEvent) (r : MemberRecord)
      → HasAddress e
      → r.address ≡ addr e.node_id r.incarnation
      → (apply_event_to_record now replace e r).address
        ≡ addr e.node_id (apply_event_to_record now replace e r).incarnation
  unfolding apply_event_to_record
  apply_event_to_record-address now true e r has known =
      let (i, a) =
        timed-address now e.state
          (record r { incarnation = e.incarnation; address = e.address; state = e.state }) in
      rw (i, a) has
  apply_event_to_record-address now false e r has known =
      let (i, a) = timed-address now e.state (record r { state = e.state }) in rw (i, a) known

  pub KnowsAddresses-merge_event :
      (now : ℕ) (e : MemberEvent) (o : Option MemberRecord) (m : Manager)
      → lookup e.node_id m.members ≡ o
      → HasAddress e
      → KnowsAddresses addr m
      → KnowsAddresses addr (merge_event now e o m)
  unfolding merge_event
  KnowsAddresses-merge_event now e none m h has known =
      KnowsAddresses-accept_event now e _ m known (unfold new_record_from_event in has)
  KnowsAddresses-merge_event now e (some r) m h has known =
      let applied : (replace : Bool)
          → KnowsAddresses addr (accept_event now e (apply_event_to_record now replace e r) m) =
        λ replace.
          KnowsAddresses-accept_event now e (apply_event_to_record now replace e r) m known
            (apply_event_to_record-address now replace e r has (known.known e.node_id r h)) in
      if-cases (KnowsAddresses addr) (ltb r.incarnation e.incarnation) (λ _. applied true)
        (λ _.
          if-cases (KnowsAddresses addr) (ltb e.incarnation r.incarnation) (λ _. known)
            (λ _.
              if-cases (KnowsAddresses addr) (ltb (state_order r.state) (state_order e.state))
                (λ _. applied false) (λ _. known)))

  unfoldable pub with_address : Text → Mark → Option (ℕ × ℕ × Text)
  with_address j none = none
  with_address j (some (i, s)) = some (i, s, addr j i)

  -- With known addresses, a belief is its incarnation and rank.
  pub belief-view :
      (j : Text) (m : Manager) → KnowsAddresses addr m → belief j m ≡ with_address j (view j m)
  unfolding view belief with_address
  belief-view j m known = at (lookup j m.members) (known.known j)
    where
      at :
          (o : Option MemberRecord)
          → ((r : MemberRecord) → o ≡ some r → r.address ≡ addr j r.incarnation)
          → belief_of o ≡ with_address j (mark_of o)
      at none h = refl
      at (some r) h = ap (λ (a : Text). some (r.incarnation, state_order r.state, a)) (h r refl)
