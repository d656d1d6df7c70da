-- ===== src/Membership/Convergence.antt =====
-- node/membership/manager.py: sequences of events about other nodes.
use mathlib.Core.Logic.{∥∥₁_elim}
use mathlib.Core.List.{Perm, Permᴰ}
use stopan.Prelude.{
  ℕ, ◌≡◌, refl, ap, sym, ◌∙◌, inl, inr, false, ◌&&◌, List, [], ◌∷◌, none, some, if◌then◌else◌, All,
  Text, text_eq, text_eq_iff, lookup, Bool-cases, if-cases,
}
use stopan.Membership.Validation.{MemberEvent, is_valid_member_event}
use stopan.Membership.Manager.{Manager, Outcome, merge_event, apply_event, apply_events}
use stopan.Membership.Addresses.{
  belief, KnowsAddresses, HasAddress, KnowsAddresses-merge_event, with_address, belief-view,
}
use stopan.Membership.View.{
  Mark, mark_of, view, node_id-merge_event, join, join_comm, join_assoc, join_idem, event_mark,
  absorb, view-merge_event,
}

-- An event about another node than the manager's own.
abbrev pub IsForeign : Text → MemberEvent → Type 0
IsForeign me e = text_eq e.node_id me ≡ false

unfoldable merged : ℕ → MemberEvent → Manager → Manager
merged now e m =
    if is_valid_member_event e then merge_event now e (lookup e.node_id m.members) m else m

apply_event-foreign :
    (now : ℕ) (e : MemberEvent) (m : Manager)
    → IsForeign m.node_id e
    → apply_event now e m ≡ (merged now e m, none)
unfolding apply_event merged
apply_event-foreign now e m f = elim (Bool-cases (is_valid_member_event e)) [
  | inl y ↦ rw (y, f)
  | inr n ↦ rw n
]

node_id-merged : (now : ℕ) (e : MemberEvent) (m : Manager) → (merged now e m).node_id ≡ m.node_id
unfolding merged
node_id-merged now e m = elim (Bool-cases (is_valid_member_event e)) [
  | inl y ↦ rw y (node_id-merge_event now e _ m)
  | inr n ↦ rw n
]

view-merged :
    (j : Text) (now : ℕ) (e : MemberEvent) (m : Manager)
    → view j (merged now e m) ≡ absorb j e (view j m)
unfolding merged absorb
view-merged j now e m = elim (Bool-cases (is_valid_member_event e)) [
  | inr n ↦ rw n
  | inl y ↦ rw y (view-merge_event j now e _ m refl ∙ at j e m)
]
  where
    at :
        (j : Text) (e : MemberEvent) (m : Manager)
        → (if text_eq e.node_id j
            then join (mark_of (lookup e.node_id m.members)) (event_mark e)
            else view j m)
          ≡ (if text_eq e.node_id j then join (view j m) (event_mark e) else view j m)
    at j e m = elim (Bool-cases (text_eq e.node_id j)) [
      | inl z ↦
          let same : e.node_id ≡ j = (text_eq_iff e.node_id j).0 z in
          rw z (unfold view in ap (λ k. join (mark_of (lookup k m.members)) (event_mark e)) same)
      | inr z ↦ rw z
    ]

-- The beliefs about `j` after all events.
unfoldable absorb_all : Text → List MemberEvent → Mark → Mark
absorb_all j [] v = v
absorb_all j (e ∷ es) v = absorb_all j es (absorb j e v)

apply_events-foreign :
    (now : ℕ) (e : MemberEvent) (es : List MemberEvent) (m : Manager)
    → IsForeign m.node_id e
    → apply_events now (e ∷ es) m ≡ apply_events now es (merged now e m)
unfolding apply_events
apply_events-foreign now e es m f =
    ap (λ (o : Outcome). elim o.1 [ some x ↦ (o.0, some x) | none ↦ apply_events now es o.0 ])
      (apply_event-foreign now e m f)

absorb_comm :
    (j : Text) (d e : MemberEvent) (v : Mark)
    → absorb j d (absorb j e v) ≡ absorb j e (absorb j d v)
unfolding absorb
absorb_comm j d e v = elim (Bool-cases (is_valid_member_event d && text_eq d.node_id j)) [
  | inr x ↦ rw x
  | inl x ↦ elim (Bool-cases (is_valid_member_event e && text_eq e.node_id j)) [
    | inr y ↦ rw (x, y)
    | inl y ↦
        rw (x, y)
          (join_assoc v (event_mark e) (event_mark d)
            ∙ ap (join v) (join_comm (event_mark e) (event_mark d))
            ∙ sym (join_assoc v (event_mark d) (event_mark e)))
  ]
]

absorb_all-permᴰ :
    (j : Text) {xs ys : List MemberEvent}
    → Permᴰ xs ys
    → (v : Mark) → absorb_all j xs v ≡ absorb_all j ys v
unfolding absorb_all
absorb_all-permᴰ j Permᴰ.nil v = refl
absorb_all-permᴰ j (Permᴰ.cons {b = b} {l₁ = l₁} e p) v =
    ap (λ x. absorb_all j l₁ (absorb j x v)) e ∙ absorb_all-permᴰ j p (absorb j b v)
absorb_all-permᴰ j (Permᴰ.swap {a' = a'} {b' = b'} {l = l} e f) v =
    rw (e, f) (ap (absorb_all j l) (absorb_comm j a' b' v))
absorb_all-permᴰ j (Permᴰ.trans p q) v = absorb_all-permᴰ j p v ∙ absorb_all-permᴰ j q v

Mark-set : IsSet Mark
Mark-set = hlevel

module _ (addr : Text → ℕ → Text) where
  -- An event about another node than `me`, with the address of that node in that incarnation.
  abbrev pub IsAddressed : Text → MemberEvent → Type 0
  IsAddressed me e = IsForeign me e × HasAddress addr e

  KnowsAddresses-merged :
      (now : ℕ) (e : MemberEvent) (m : Manager)
      → HasAddress addr e
      → KnowsAddresses addr m
      → KnowsAddresses addr (merged now e m)
  unfolding merged
  KnowsAddresses-merged now e m has known =
      if-cases (KnowsAddresses addr) (is_valid_member_event e)
        (λ _. KnowsAddresses-merge_event addr now e _ m refl has known) (λ _. known)

  -- Events about other nodes raise nothing and leave the beliefs that they give.
  apply_events-belief :
      (j : Text) (now : ℕ) (me : Text) (es : List MemberEvent) (m : Manager)
      → m.node_id ≡ me
      → KnowsAddresses addr m
      → All (IsAddressed me) es
      → ((apply_events now es m).1 ≡ none)
        × (belief j (apply_events now es m).0 ≡ with_address addr j (absorb_all j es (view j m)))
  unfolding apply_events absorb_all
  apply_events-belief j now me [] m here known f = (refl, belief-view addr j m known)
  apply_events-belief j now me (e ∷ es) m here known ((f, has), fs) =
      rw (apply_events-foreign now e es m (rw here f)) (
        rw (← view-merged j now e m) (
          apply_events-belief j now me es (merged now e m) (node_id-merged now e m ∙ here)
            (KnowsAddresses-merged now e m has known) fs))

-- If every node has one address in each of its incarnations, in the manager's records and in all
-- events, then the same events about other nodes, in any two orders and at any two times, leave
-- the same belief about every node - its incarnation, the rank of its state and its address - and
-- none of them raises.
pub apply_events-perm :
    (addr : Text → ℕ → Text) (now later : ℕ) (m : Manager) (xs ys : List MemberEvent) (j : Text)
    → KnowsAddresses addr m
    → Perm xs ys
    → All (IsAddressed addr m.node_id) xs
    → All (IsAddressed addr m.node_id) ys
    → ((apply_events now xs m).1 ≡ none)
      × ((apply_events later ys m).1 ≡ none)
      × (belief j (apply_events now xs m).0 ≡ belief j (apply_events later ys m).0)
apply_events-perm addr now later m xs ys j known p fx fy =
    let (quiet, seen) = apply_events-belief addr j now m.node_id xs m refl known fx in
    let (quiet', seen') = apply_events-belief addr j later m.node_id ys m refl known fy in
    let same = ∥∥₁_elim p (Mark-set _ _) (λ d. absorb_all-permᴰ j d (view j m)) in
    (quiet, quiet', seen ∙ ap (with_address addr j) same ∙ sym seen')

-- An event about another node that is received again changes no belief.
apply_event_twice :
    (now later : ℕ) (m : Manager) (e : MemberEvent) (j : Text)
    → IsForeign m.node_id e
    → view j (apply_event later e (apply_event now e m).0).0 ≡ view j (apply_event now e m).0
unfolding absorb
apply_event_twice now later m e j f =
    rw
      (
        apply_event-foreign now e m f,
        apply_event-foreign later e (merged now e m) (rw (node_id-merged now e m) f),
      )
      (view-merged j later e (merged now e m) ∙ rw (view-merged j now e m) (again j e (view j m)))
  where
    again : (j : Text) (e : MemberEvent) (v : Mark) → absorb j e (absorb j e v) ≡ absorb j e v
    again j e v = elim (Bool-cases (is_valid_member_event e && text_eq e.node_id j)) [
      | inr x ↦ rw x
      | inl x ↦
          rw x (join_assoc v (event_mark e) (event_mark e) ∙ ap (join v) (join_idem (event_mark e)))
    ]
