-- ===== src/Replication/Members.antt =====
-- Members by name against addresses by name.
use stopan.Prelude.{
  ◌≡◌, refl, ap, subst, ◌⊎◌, inl, inr, true, false, not, ◌&&◌, List, [], ◌∷◌, All, none, some,
  Bool-cases, Text, text_eq, text_eq_iff, contains, Dict, lookup, insert, lookup-insert, ok, arith,
}
use stopan.Cluster.{ClusterMember, addresses_onto, truthy, members_excluding, with_addresses}
use stopan.Cluster.Targets.{IsCandidate}
use stopan.Replication.{members_onto, pick}

-- A name stands for the same member in both dictionaries, or in none.
abbrev pub IsSame : Text → Dict ClusterMember → Dict Text → Type 0
IsSame i d a =
    ((lookup i d ≡ none) × (lookup i a ≡ none))
    ⊎ ((x : Text) × (lookup i d ≡ some (record { node_id = i; address = x }))
        × (lookup i a ≡ some x))

IsSame-insert :
    (i : Text) (m : ClusterMember) (d : Dict ClusterMember) (a : Dict Text)
    → IsSame i d a
    → IsSame i (insert m.node_id m d) (insert m.node_id m.address a)
IsSame-insert i m d a h = elim (Bool-cases (text_eq m.node_id i)) [
  | inl e ↦ inr (
    m.address,
    rw (lookup-insert m.node_id i m d, e)
        (ap (λ (t : Text). some (record { node_id = t; address = m.address }))
          ((text_eq_iff m.node_id i).0 e)),
    rw (lookup-insert m.node_id i m.address a, e) refl,
  )
  | inr e ↦ rw (lookup-insert m.node_id i m d, lookup-insert m.node_id i m.address a, e) h
]

dropped_other :
    (i j : Text) (excluded : List Text)
    → contains i excluded ≡ false
    → truthy i ≡ true
    → (truthy j && not (contains j excluded)) ≡ false
    → text_eq j i ≡ false
dropped_other i j excluded fresh named dropped = elim (Bool-cases (text_eq j i)) [
  | inr e ↦ e
  | inl e ↦
      let same = (text_eq_iff j i).0 e in
      absurd
        (both (subst (λ (t : Text). (truthy t && not (contains t excluded)) ≡ false) same dropped))
]
  where
    both : (truthy i && not (contains i excluded)) ≡ false → ⊥
    both h = ground (arith, fresh, named, h)

IsSame-dropped :
    (i j x : Text) (d : Dict ClusterMember) (a : Dict Text)
    → text_eq j i ≡ false
    → IsSame i d a
    → IsSame i d (insert j x a)
IsSame-dropped i j x d a e h = rw (lookup-insert j i x a, e) h

-- Members that are excluded do not count for a name that is not.
pub IsSame-members :
    (i : Text) (excluded : List Text) (ms : List ClusterMember) (d : Dict ClusterMember)
    (a : Dict Text)
    → contains i excluded ≡ false
    → truthy i ≡ true
    → IsSame i d a
    → IsSame i (members_onto d (members_excluding excluded ms)) (addresses_onto a ms)
unfolding members_onto members_excluding addresses_onto
IsSame-members i excluded [] d a fresh named h = h
IsSame-members i excluded (m ∷ ms) d a fresh named h =
    let kept = truthy m.node_id && not (contains m.node_id excluded) in
    elim (Bool-cases kept) [
      | inl e ↦ rw (e) (
          IsSame-members i excluded ms (insert m.node_id m d) (insert m.node_id m.address a) fresh
            named (IsSame-insert i m d a h))
      | inr e ↦ rw (e) (
          IsSame-members i excluded ms d (insert m.node_id m.address a) fresh named (
            IsSame-dropped i m.node_id m.address d a
              (dropped_other i m.node_id excluded fresh named e) h))
    ]

-- Picking members by name is finding the addresses of the names.
pub pick-eq :
    (d : Dict ClusterMember) (a : Dict Text) (excluded is : List Text)
    → ((i : Text) → contains i excluded ≡ false → truthy i ≡ true → IsSame i d a)
    → All (IsCandidate a excluded) is
    → pick d is ≡ ok (with_addresses a is)
unfolding pick with_addresses
pick-eq d a excluded [] same h = refl
pick-eq d a excluded (i ∷ is) same (((x, known), fresh, named), h) =
    let rest = pick-eq d a excluded is same h in
    elim (same i fresh named) [
      | inl (_, unknown) ↦ cc (known, unknown)
      | inr (y, member, address) ↦ rw (pick, member, with_addresses, address, rest) refl
    ]
