-- ===== src/Node/Callbacks.antt =====
-- `NodeDrainController` of node/lifecycle.py: the leases whose callback gRPC has.
use stopan.Prelude.{
  ℕ, zero, suc, leb, ◌≡◌, refl, inl, inr, ◌⊎◌, Bool, true, false, List, [], ◌∷◌, ◌++◌, Option,
  if-cases, length, ap, arith,
}
use stopan.Node.Drain.{
  Controller, Incoherent, request_draining, try_begin_local_operation, end_local_operation,
  released_at, set_released, release, Callback, fails, refused, registered, Admission, register,
  admit_rpc, mark_stopped, is_registered, Step, requested, began, ended, admits, releases, stops,
  Reach, start, step,
}

-- gRPC has the callback of every lease that is not released.
abbrev pub AreRegistered : Controller → Type 0
AreRegistered c = (i : ℕ) → released_at c.leases i ≡ false → is_registered i c.callbacks ≡ true

released_at-set_released : (bs : List Bool) (i : ℕ) → released_at (set_released bs i) i ≡ true
released_at-set_released [] i = refl
released_at-set_released (b ∷ bs) zero = refl
released_at-set_released (b ∷ bs) (suc i) = released_at-set_released bs i

pub open_before :
    (bs : List Bool) (i j : ℕ)
    → released_at (set_released bs i) j ≡ false
    → released_at bs j ≡ false
open_before [] i j h = h
open_before (b ∷ bs) zero zero h = cc
open_before (b ∷ bs) zero (suc j) h = h
open_before (b ∷ bs) (suc i) zero h = h
open_before (b ∷ bs) (suc i) (suc j) h = open_before bs i j h

open_after_new :
    (bs : List Bool) (j : ℕ)
    → released_at (bs ++ false ∷ []) j ≡ false
    → (released_at bs j ≡ false) ⊎ (j ≡ length bs)
open_after_new [] zero h = inr refl
open_after_new [] (suc j) h = inl h
open_after_new (b ∷ bs) zero h = inl h
open_after_new (b ∷ bs) (suc j) h = elim (open_after_new bs j h) [
  | inl y ↦ inl y
  | inr n ↦ inr (ap suc n)
]

-- What a release does to the leases.
record IsRelease (i : ℕ) (c c' : Controller) : Type 0 where
  pub same : c'.callbacks ≡ c.callbacks
  pub gone : released_at c'.leases i ≡ true
  pub before : (j : ℕ) → released_at c'.leases j ≡ false → released_at c.leases j ≡ false

release-IsRelease : (i : ℕ) (c : Controller) → IsRelease i c (release i c).0
unfolding release
release-IsRelease i c =
    let P = λ (o : Controller × Option Incoherent). IsRelease i c o.0 in
    if-cases P (released_at c.leases i)
      (λ was. record { same = refl; gone = was; before = λ j h. h })
      (λ _.
        if-cases P (leb c.active_rpcs 0)
          (λ _. record {
            same = refl;
            gone = released_at-set_released c.leases i;
            before = open_before c.leases i;
          })
          (λ _. record {
            same = refl;
            gone = released_at-set_released c.leases i;
            before = open_before c.leases i;
          }))

-- After the release of a new lease only the older ones can be open.
dropped :
    (c c' d : Controller)
    → c'.leases ≡ c.leases ++ false ∷ []
    → c'.callbacks ≡ c.callbacks
    → AreRegistered c
    → IsRelease (length c.leases) c' d
    → AreRegistered d
dropped c c' d new same k r j h = elim (open_after_new c.leases j (rw new at r.before j h)) [
  | inl y ↦ rw (r.same, same) (k j y)
  | inr n ↦ absurd (
      let here : released_at d.leases (length c.leases) ≡ false = rw n at h in
      let gone = r.gone in ground (arith, here, gone))
]

-- A new lease gets a callback or is released at once.
register-AreRegistered :
    (callback : Callback) (c c' : Controller)
    → c'.leases ≡ c.leases ++ false ∷ []
    → c'.callbacks ≡ c.callbacks
    → AreRegistered c
    → AreRegistered (register callback (length c.leases) c').0
unfolding register
register-AreRegistered registered c c' new same k = λ j h.
    rw same (elim (open_after_new c.leases j (rw new at h)) [
      | inl y ↦ (let z = k j y in ground (arith, z))
      | inr n ↦ ground (arith, n)
    ])
register-AreRegistered fails c c' new same k =
    dropped c c' _ new same k (release-IsRelease (length c.leases) c')
register-AreRegistered refused c c' new same k =
    dropped c c' _ new same k (release-IsRelease (length c.leases) c')

Step-AreRegistered : {c c' : Controller} → Step c c' → AreRegistered c → AreRegistered c'
unfolding request_draining try_begin_local_operation end_local_operation mark_stopped admit_rpc
Step-AreRegistered requested k = k
Step-AreRegistered {c} began k =
    if-cases (λ (o : Controller × Bool). AreRegistered o.0) c.draining (λ _. k) (λ _. k)
Step-AreRegistered {c} ended k =
    if-cases (λ (o : Controller × Option Incoherent). AreRegistered o.0)
      (leb c.active_local_operations 0) (λ _. k) (λ _. k)
Step-AreRegistered {c} (admits callback) k =
    if-cases (λ (o : Controller × Admission). AreRegistered o.0) c.draining (λ _. k)
      (λ _. register-AreRegistered callback c _ refl refl k)
Step-AreRegistered {c} (releases i _) k =
    let r = release-IsRelease i c in λ j h. rw r.same (k j (r.before j h))
Step-AreRegistered stops k = k

pub Reach-AreRegistered : {c c' : Controller} → Reach c c' → AreRegistered c → AreRegistered c'
Reach-AreRegistered start k = k
Reach-AreRegistered (step r s) k = Step-AreRegistered s (Reach-AreRegistered r k)
