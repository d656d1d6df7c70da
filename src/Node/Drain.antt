-- ===== src/Node/Drain.antt =====
-- `NodeDrainController` of node/lifecycle.py. Every method takes the lock once, or twice in
-- `admit_rpc`, and is one step; the condition variable, which only wakes the waiting threads, is left out.
-- What `context.add_callback` of gRPC does is a parameter of the call that uses it.
use stopan.Prelude.{
  ℕ, zero, suc, ◌+◌, ◌-◌, leb, ◌==◌, Bool, true, false, not, ◌&&◌, ◌||◌, ◌≡◌, List, [], ◌∷◌, ◌++◌,
  Option, none, some, if◌then◌else◌, length,
}

-- `leases` are the `released` flags of the calls of `admit_rpc`, one for each `release` it made, and
-- `callbacks` are those leases whose `release` gRPC has registered. Only gRPC can call such a
-- `release`; that of a lease without a callback is known to `admit_rpc` alone.
pub record Controller : Type 0 where
  pub draining : Bool
  pub stopped : Bool
  pub active_local_operations : ℕ
  pub active_rpcs : ℕ
  pub leases : List Bool
  pub callbacks : List ℕ

-- `RuntimeError`
pub data Incoherent : Type 0 where
  local_operations rpcs : Incoherent

unfoldable pub new_controller : Controller
new_controller = record {
  draining = false;
  stopped = false;
  active_local_operations = 0;
  active_rpcs = 0;
  leases = [];
  callbacks = [];
}

unfoldable pub request_draining : Controller → Controller × Bool
request_draining c = (record c { draining = true }, not c.draining)

unfoldable pub try_begin_local_operation : Controller → Controller × Bool
try_begin_local_operation c =
    if c.draining
    then (c, false)
    else (record c { active_local_operations = c.active_local_operations + 1 }, true)

unfoldable pub end_local_operation : Controller → Controller × Option Incoherent
end_local_operation c =
    if leb c.active_local_operations 0
    then (c, some local_operations)
    else (record c { active_local_operations = c.active_local_operations - 1 }, none)

-- The flag of a lease; a lease that was never made has nothing to release.
abbrev pub released_at : List Bool → ℕ → Bool
released_at [] i = true
released_at (b ∷ bs) zero = b
released_at (b ∷ bs) (suc i) = released_at bs i

abbrev pub set_released : List Bool → ℕ → List Bool
set_released [] i = []
set_released (b ∷ bs) zero = true ∷ bs
set_released (b ∷ bs) (suc i) = b ∷ set_released bs i

-- `release`, the function that `admit_rpc` makes.
unfoldable pub release : ℕ → Controller → Controller × Option Incoherent
release i c =
    let c' = record c { leases = set_released c.leases i } in
    if released_at c.leases i
    then (c, none)
    else if leb c.active_rpcs 0
    then (c', some rpcs)
    else (record c' { active_rpcs = c.active_rpcs - 1 }, none)

-- `context.add_callback(release)` raises, returns False, or registers the function.
pub data Callback : Type 0 where
  fails refused registered : Callback

-- How `admit_rpc` ends: with a lease, by `context.abort`, or with the callback's exception.
pub data Admission : Type 0 where
  admitted : ℕ → Admission
  unavailable cancelled callback_failed : Admission
  incoherent : Incoherent → Admission

abbrev ending : Option Incoherent → Admission → Admission
ending none a = a
ending (some e) a = incoherent e

-- The part of `admit_rpc` after the lease was made.
unfoldable pub register : Callback → ℕ → Controller → Controller × Admission
register registered i c = (record c { callbacks = i ∷ c.callbacks }, admitted i)
register fails i c = let (c', e) = release i c in (c', ending e callback_failed)
register refused i c = let (c', e) = release i c in (c', ending e cancelled)

unfoldable pub admit_rpc : Callback → Controller → Controller × Admission
admit_rpc callback c =
    if c.draining
    then (c, unavailable)
    else register callback (length c.leases)
        (record c { active_rpcs = c.active_rpcs + 1; leases = c.leases ++ false ∷ [] })

unfoldable pub active_work : Controller → ℕ × ℕ
active_work c = (c.active_local_operations, c.active_rpcs)

-- The condition on which `wait_for_idle` returns.
unfoldable pub is_idle : Controller → Bool
is_idle c = c.active_local_operations == 0 && c.active_rpcs == 0

unfoldable pub mark_stopped : Controller → Controller
mark_stopped c = record c { stopped = true }

abbrev pub is_registered : ℕ → List ℕ → Bool
is_registered i [] = false
is_registered i (j ∷ js) = (i == j) || is_registered i js

-- One call by any thread, or by gRPC of a callback that is registered.
pub data Step (c : Controller) : Controller → Type 0 where
  requested : Step c (request_draining c).0
  began : Step c (try_begin_local_operation c).0
  ended : Step c (end_local_operation c).0
  admits : (callback : Callback) → Step c (admit_rpc callback c).0
  releases : (i : ℕ) → is_registered i c.callbacks ≡ true → Step c (release i c).0
  stops : Step c (mark_stopped c)

pub data Reach (c : Controller) : Controller → Type 0 where
  start : Reach c c
  step : {c' c'' : Controller} → Reach c c' → Step c' c'' → Reach c c''
