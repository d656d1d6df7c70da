-- ===== src/Node/Admission.antt =====
-- `NodeDrainController` of node/lifecycle.py: its counters over a run.
use stopan.Prelude.{
  ℕ, zero, suc, ◌+◌, ◌≤◌, leb, ◌≡◌, refl, ap, ◌∙◌, Bool, true, false, List, [], ◌∷◌, ◌++◌, Option,
  none, if-cases, length, arith,
}
use stopan.Node.Drain.{
  Controller, Incoherent, new_controller, request_draining, try_begin_local_operation,
  end_local_operation, released_at, set_released, release, Callback, fails, refused, registered,
  Admission, register, admit_rpc, mark_stopped, Step, requested, began, ended, admits, releases,
  stops, Reach, start, step,
}

-- The leases that are not released.
abbrev pub open_leases : List Bool → ℕ
open_leases [] = 0
open_leases (true ∷ bs) = open_leases bs
open_leases (false ∷ bs) = suc (open_leases bs)

abbrev pub IsCoherent : Controller → Type 0
IsCoherent c = c.active_rpcs ≡ open_leases c.leases

open_leases-append : (bs : List Bool) → open_leases (bs ++ false ∷ []) ≡ open_leases bs + 1
open_leases-append [] = refl
open_leases-append (true ∷ bs) = open_leases-append bs
open_leases-append (false ∷ bs) = let h = open_leases-append bs in omega (arith, h)

pub open_leases-set_released :
    (bs : List Bool) (i : ℕ)
    → released_at bs i ≡ false
    → open_leases bs ≡ suc (open_leases (set_released bs i))
open_leases-set_released [] i h = cc
open_leases-set_released (true ∷ bs) zero h = cc
open_leases-set_released (false ∷ bs) zero h = refl
open_leases-set_released (true ∷ bs) (suc i) h = open_leases-set_released bs i h
open_leases-set_released (false ∷ bs) (suc i) h = ap suc (open_leases-set_released bs i h)

length-set_released : (bs : List Bool) (i : ℕ) → length (set_released bs i) ≡ length bs
length-set_released [] i = refl
length-set_released (b ∷ bs) zero = refl
length-set_released (b ∷ bs) (suc i) = ap suc (length-set_released bs i)

-- Releasing keeps a controller coherent and raises nothing.
release-IsCoherent :
    (i : ℕ) (c : Controller) → IsCoherent c → IsCoherent (release i c).0 × ((release i c).1 ≡ none)
unfolding release
release-IsCoherent i c k =
    let Good = λ (o : Controller × Option Incoherent). IsCoherent o.0 × (o.1 ≡ none) in
    if-cases Good (released_at c.leases i) (λ _. (k, refl))
      (λ unreleased.
        let less = open_leases-set_released c.leases i unreleased in
        if-cases Good (leb c.active_rpcs 0)
          (λ none_open. absurd (ground (arith, none_open, k, less)))
          (λ _. (omega (arith, k, less), refl)))

register-IsCoherent :
    (callback : Callback) (i : ℕ) (c : Controller)
    → IsCoherent c
    → IsCoherent (register callback i c).0
unfolding register
register-IsCoherent registered i c k = k
register-IsCoherent fails i c k = (release-IsCoherent i c k).0
register-IsCoherent refused i c k = (release-IsCoherent i c k).0

admit_rpc-IsCoherent :
    (callback : Callback) (c : Controller) → IsCoherent c → IsCoherent (admit_rpc callback c).0
unfolding admit_rpc
admit_rpc-IsCoherent callback c k =
    if-cases (λ (o : Controller × Admission). IsCoherent o.0) c.draining (λ _. k)
      (λ _.
        register-IsCoherent callback (length c.leases) _
          (let h = open_leases-append c.leases in omega (arith, k, h)))

Step-IsCoherent : {c c' : Controller} → Step c c' → IsCoherent c → IsCoherent c'
unfolding request_draining try_begin_local_operation end_local_operation mark_stopped
Step-IsCoherent requested k = k
Step-IsCoherent {c} began k =
    if-cases (λ (o : Controller × Bool). IsCoherent o.0) c.draining (λ _. k) (λ _. k)
Step-IsCoherent {c} ended k =
    if-cases (λ (o : Controller × Option Incoherent). IsCoherent o.0)
      (leb c.active_local_operations 0) (λ _. k) (λ _. k)
Step-IsCoherent (admits callback) k = admit_rpc-IsCoherent callback _ k
Step-IsCoherent (releases i _) k = (release-IsCoherent i _ k).0
Step-IsCoherent stops k = k

pub Reach-IsCoherent : {c c' : Controller} → Reach c c' → IsCoherent c → IsCoherent c'
Reach-IsCoherent start k = k
Reach-IsCoherent (step r s) k = Step-IsCoherent s (Reach-IsCoherent r k)

-- In every run of a new controller the number of active RPCs is that of the leases that were made
-- and not released, and so no release ends with the error of an incoherent counter.
pub release-coherent :
    (c : Controller) (i : ℕ)
    → Reach new_controller c
    → (c.active_rpcs ≡ open_leases c.leases) × ((release i c).1 ≡ none)
unfolding new_controller
release-coherent c i run = let k = Reach-IsCoherent run refl in (k, (release-IsCoherent i c k).1)

-- What draining leaves true: it goes on, nothing new is admitted, and the work only gets less.
record IsAfter (c c' : Controller) : Type 0 where
  pub drains : c'.draining ≡ true
  pub no_local : c'.active_local_operations ≤ c.active_local_operations
  pub no_rpc : c'.active_rpcs ≤ c.active_rpcs
  pub no_lease : length c'.leases ≡ length c.leases

release-IsAfter : (i : ℕ) (c : Controller) → c.draining ≡ true → IsAfter c (release i c).0
unfolding release
release-IsAfter i c d =
    let After = λ (o : Controller × Option Incoherent). IsAfter c o.0 in
    if-cases After (released_at c.leases i)
      (λ _. record { drains = d; no_local = omega arith; no_rpc = omega arith; no_lease = refl })
      (λ _.
        if-cases After (leb c.active_rpcs 0)
          (λ _. record {
            drains = d;
            no_local = omega arith;
            no_rpc = omega arith;
            no_lease = length-set_released c.leases i;
          })
          (λ _. record {
            drains = d;
            no_local = omega arith;
            no_rpc = omega arith;
            no_lease = length-set_released c.leases i;
          }))

same-IsAfter : (c : Controller) → c.draining ≡ true → IsAfter c c
same-IsAfter c d = record {
  drains = d;
  no_local = omega arith;
  no_rpc = omega arith;
  no_lease = refl;
}

Step-IsAfter : {c c' : Controller} → Step c c' → c.draining ≡ true → IsAfter c c'
unfolding request_draining try_begin_local_operation end_local_operation admit_rpc mark_stopped
Step-IsAfter requested d = record {
  drains = refl;
  no_local = omega arith;
  no_rpc = omega arith;
  no_lease = refl;
}
Step-IsAfter {c} began d =
    if-cases (λ (o : Controller × Bool). IsAfter c o.0) c.draining (λ _. same-IsAfter c d)
      (λ e. absurd (ground (arith, d, e)))
Step-IsAfter {c} ended d =
    if-cases (λ (o : Controller × Option Incoherent). IsAfter c o.0)
      (leb c.active_local_operations 0) (λ _. same-IsAfter c d)
      (λ _. record { drains = d; no_local = omega arith; no_rpc = omega arith; no_lease = refl })
Step-IsAfter {c} (admits callback) d =
    if-cases (λ (o : Controller × Admission). IsAfter c o.0) c.draining (λ _. same-IsAfter c d)
      (λ e. absurd (ground (arith, d, e)))
Step-IsAfter {c} (releases i _) d = release-IsAfter i c d
Step-IsAfter stops d = record {
  drains = d;
  no_local = omega arith;
  no_rpc = omega arith;
  no_lease = refl;
}

Reach-IsAfter : {c c' : Controller} → Reach c c' → c.draining ≡ true → IsAfter c c'
Reach-IsAfter {c} start d = same-IsAfter c d
Reach-IsAfter {c} (step r s) d =
    let a = Reach-IsAfter r d in
    let b = Step-IsAfter s a.drains in
    record {
      drains = b.drains;
      no_local = (let x = a.no_local in let y = b.no_local in omega (arith, x, y));
      no_rpc = (let x = a.no_rpc in let y = b.no_rpc in omega (arith, x, y));
      no_lease = b.no_lease ∙ a.no_lease;
    }

-- After a request to drain nothing is admitted in any run: no new lease is made, neither counter
-- rises, and the controller goes on draining.
pub request_draining-closes :
    (c c' : Controller)
    → Reach (request_draining c).0 c'
    → (c'.draining ≡ true)
      × (c'.active_local_operations ≤ c.active_local_operations)
      × (c'.active_rpcs ≤ c.active_rpcs)
      × (length c'.leases ≡ length c.leases)
unfolding request_draining
request_draining-closes c c' run =
    let a = Reach-IsAfter run refl in (a.drains, a.no_local, a.no_rpc, a.no_lease)
