-- ===== src/Lifecycle/Shutdown.antt =====
-- src/lifecycle.rs, `ShutdownCoordinator`: the phase of the shutdown, behind a watch channel, and the
-- gate that a request closes. A method says whether it wakes those who watch the phase.
pub mod Phases
use roused.Base.{ℕ, Bool, true, false, not, List, [], ◌∷◌, if◌then◌else◌}
use roused.Lifecycle.Gate
use roused.Lifecycle.Gate.{RequestGate}

pub data ShutdownPhase : Type 0 where
  running requested completed : ShutdownPhase

pub record ShutdownCoordinator : Type 0 where
  pub request_gate : RequestGate
  pub phase : ShutdownPhase

abbrev pub is_running : ShutdownPhase → Bool
is_running running = true
is_running _ = false

abbrev pub is_completed : ShutdownPhase → Bool
is_completed completed = true
is_completed _ = false

unfoldable pub new : RequestGate → ShutdownCoordinator
new g = record { request_gate = g; phase = running }

unfoldable pub request : ShutdownCoordinator → ShutdownCoordinator × Bool
unfolding Gate.close
request c =
    let closed = record c { request_gate = (Gate.close c.request_gate).0 } in
    if is_running c.phase then (record closed { phase = requested }, true) else (closed, false)

unfoldable pub complete : ShutdownCoordinator → ShutdownCoordinator × Bool
complete c = if is_completed c.phase then (c, false) else (record c { phase = completed }, true)

-- `wait_for_request` and `wait_for_completion` over the phases that they see, the first when they
-- subscribe: whether they return. A timeout that comes first makes the second return false.
unfoldable pub wait_for_request : List ShutdownPhase → Bool
wait_for_request [] = false
wait_for_request (p ∷ ps) = if not (is_running p) then true else wait_for_request ps

unfoldable pub wait_for_completion : List ShutdownPhase → Bool
wait_for_completion [] = false
wait_for_completion (p ∷ ps) = if is_completed p then true else wait_for_completion ps
