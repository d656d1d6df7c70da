-- ===== src/Node/Tests.antt =====
-- A node with one RPC, which is asked to drain.
use stopan.Prelude.{◌≤◌, ◌≡◌, refl, true, false, [], ◌∷◌, none, length}
use stopan.Node.Drain.{
  Controller, registered, new_controller, request_draining, admit_rpc, release, register, is_idle,
  admits, releases, Reach, start, step,
}
use stopan.Node.Admission.{open_leases, release-coherent, request_draining-closes}
use stopan.Node.Idle.{Ends, Reach-idle}

-- One RPC has been admitted.
abbrev busy : Controller
busy = record {
  draining = false;
  stopped = false;
  active_local_operations = 0;
  active_rpcs = 1;
  leases = false ∷ [];
  callbacks = 0 ∷ [];
}

to_busy : Reach new_controller busy
unfolding new_controller admit_rpc register
to_busy = step start (admits registered)

release-coherent_example :
    (busy.active_rpcs ≡ open_leases busy.leases) × ((release 0 busy).1 ≡ none)
release-coherent_example = release-coherent busy 0 to_busy

-- Another RPC is refused while the first one ends.
abbrev drained : Controller
drained = (release 0 (admit_rpc registered (request_draining busy).0).0).0

request_draining-closes_example :
    (drained.draining ≡ true)
    × (drained.active_local_operations ≤ 0)
    × (drained.active_rpcs ≤ 1)
    × (length drained.leases ≡ 1)
unfolding admit_rpc request_draining
request_draining-closes_example =
    request_draining-closes busy drained (step (step start (admits registered)) (releases 0 refl))

Reach-idle_example : (c' : Controller) × Ends busy c' × (is_idle c' ≡ true)
Reach-idle_example = Reach-idle busy to_busy
