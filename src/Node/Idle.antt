-- ===== src/Node/Idle.antt =====
-- `NodeDrainController` of node/lifecycle.py: the calls that end the open work.
use stopan.Prelude.{
  ℕ, zero, suc, ◌-◌, leb, ◌≡◌, refl, sym, ◌∙◌, Bool, true, false, List, [], ◌∷◌, none, arith,
}
use stopan.Node.Drain.{
  Controller, new_controller, end_local_operation, released_at, set_released, release, is_idle,
  is_registered, Reach,
}
use stopan.Node.Admission.{open_leases, IsCoherent, open_leases-set_released, Reach-IsCoherent}
use stopan.Node.Callbacks.{AreRegistered, open_before, Reach-AreRegistered}

-- Calls that end work and raise nothing: of `end_local_operation`, and of registered callbacks.
pub data Ends (c : Controller) : Controller → Type 0 where
  no_call : Ends c c
  ends_operation :
      {c' : Controller}
      → Ends c c'
      → (end_local_operation c').1 ≡ none
      → Ends c (end_local_operation c').0
  ends_rpc :
      {c' : Controller} (i : ℕ)
      → Ends c c'
      → is_registered i c'.callbacks ≡ true
      → (release i c').1 ≡ none
      → Ends c (release i c').0

Ends-trans : {a b c : Controller} → Ends a b → Ends b c → Ends a c
Ends-trans r no_call = r
Ends-trans r (ends_operation q n) = ends_operation (Ends-trans r q) n
Ends-trans r (ends_rpc i q k n) = ends_rpc i (Ends-trans r q) k n

open_lease :
    (bs : List Bool) (n : ℕ) → open_leases bs ≡ suc n → (i : ℕ) × (released_at bs i ≡ false)
open_lease [] n h = absurd (omega (arith, h))
open_lease (false ∷ bs) n h = (0, refl)
open_lease (true ∷ bs) n h = let (i, r) = open_lease bs n h in (suc i, r)

-- The release of an open lease of a coherent controller.
release-held :
    (i n : ℕ) (c : Controller)
    → released_at c.leases i ≡ false
    → c.active_rpcs ≡ suc n
    → release i c ≡ (record c { active_rpcs = n; leases = set_released c.leases i }, none)
unfolding release
release-held i n c held h =
    let some_open : leb c.active_rpcs 0 ≡ false = ground (arith, h) in
    let less : c.active_rpcs - 1 ≡ n = omega (arith, h) in rw (held, some_open, less)

-- The registered callbacks leave no RPC, and as many local operations.
drain_rpcs :
    (n : ℕ) (c : Controller)
    → IsCoherent c
    → AreRegistered c
    → c.active_rpcs ≡ n
    → (c' : Controller) × Ends c c'
      × (c'.active_rpcs ≡ 0)
      × (c'.active_local_operations ≡ c.active_local_operations)
drain_rpcs zero c k reg h = (c, no_call, h, refl)
drain_rpcs (suc n) c k reg h =
    let (i, held) = open_lease c.leases n (sym k ∙ h) in
    let c1 : Controller = record c { active_rpcs = n; leases = set_released c.leases i } in
    let less = open_leases-set_released c.leases i held in
    let there : release i c ≡ (c1, none) = release-held i n c held h in
    let reg1 : AreRegistered c1 = λ j o. reg j (open_before c.leases i j o) in
    let (c', r, z, l) = drain_rpcs n c1 (omega (arith, k, h, less)) reg1 refl in
    let called : Ends c (release i c).0 = ends_rpc i no_call (reg i held) (rw there refl) in
    let first : Ends c c1 = rw there at called in (c', Ends-trans first r, z, l)

end-held :
    (n : ℕ) (c : Controller)
    → c.active_local_operations ≡ suc n
    → end_local_operation c ≡ (record c { active_local_operations = n }, none)
unfolding end_local_operation
end-held n c h =
    let some_open : leb c.active_local_operations 0 ≡ false = ground (arith, h) in
    let less : c.active_local_operations - 1 ≡ n = omega (arith, h) in rw (some_open, less)

drain_local :
    (n : ℕ) (c : Controller)
    → c.active_local_operations ≡ n
    → (c' : Controller) × Ends c c'
      × (c'.active_rpcs ≡ c.active_rpcs)
      × (c'.active_local_operations ≡ 0)
drain_local zero c h = (c, no_call, refl, h)
drain_local (suc n) c h =
    let c1 : Controller = record c { active_local_operations = n } in
    let there : end_local_operation c ≡ (c1, none) = end-held n c h in
    let (c', r, z, l) = drain_local n c1 refl in
    let called : Ends c (end_local_operation c).0 = ends_operation no_call (rw there refl) in
    let first : Ends c c1 = rw there at called in (c', Ends-trans first r, z, l)

-- From every controller that a run of a new one reaches, draining or not, there are calls of
-- `end_local_operation` and of registered callbacks alone, none of which raises, after which the
-- condition holds that `wait_for_idle` waits for.
pub Reach-idle :
    (c : Controller) → Reach new_controller c → (c' : Controller) × Ends c c' × (is_idle c' ≡ true)
unfolding is_idle new_controller
Reach-idle c run =
    let reg = Reach-AreRegistered run (λ i h. absurd (ground (arith, h))) in
    let (c1, r, none_left, same) =
      drain_rpcs c.active_rpcs c (Reach-IsCoherent run refl) reg refl in
    let (c2, q, kept, no_local) = drain_local c1.active_local_operations c1 refl in
    (c2, Ends-trans r q, ground (arith, none_left, kept, no_local))
