-- ===== src/Lifecycle/Shutdown/Phases.antt =====
-- src/lifecycle.rs, `ShutdownCoordinator`: the order of the phases.
use roused.Base.{ℕ, ◌≤◌, ◌≡◌, Bool, false, Option, none, some, List, [], ◌∷◌, arith}
use roused.Lifecycle.Gate
use roused.Lifecycle.Gate.{RequestGate, RequestAdmission}
use roused.Lifecycle.Shutdown.{
  ShutdownPhase, running, requested, completed, ShutdownCoordinator, request, complete,
}

-- The calls that reach the coordinator and its gate.
pub data Call : Type 0 where
  requests completes admits releases : Call

abbrev keep_gate : RequestGate → Option (RequestGate × Bool) → RequestGate
keep_gate g none = g
keep_gate g (some (h, b)) = h

abbrev keep_admit : RequestGate → Option (RequestGate × Option RequestAdmission) → RequestGate
keep_admit g none = g
keep_admit g (some (h, a)) = h

-- One call; one that panics changes nothing.
pub step : ShutdownCoordinator → Call → ShutdownCoordinator
step c requests = (request c).0
step c completes = (complete c).0
step c admits = record c { request_gate = keep_admit c.request_gate (Gate.admit c.request_gate) }
step c releases = record c { request_gate = keep_gate c.request_gate (Gate.release c.request_gate) }

pub run : ShutdownCoordinator → List Call → ShutdownCoordinator
run c [] = c
run c (x ∷ xs) = run (step c x) xs

-- The phases in their order.
abbrev pub rank : ShutdownPhase → ℕ
rank running = 0
rank requested = 1
rank completed = 2

step_keeps :
    (c : ShutdownCoordinator) (x : Call) (r : ℕ)
    → r ≤ rank c.phase
    → c.request_gate.accepting ≡ false
    → (r ≤ rank (step c x).phase) × ((step c x).request_gate.accepting ≡ false)
unfolding step request complete Gate.admit Gate.release
step_keeps c requests r p q = ground arith
step_keeps c completes r p q = ground arith
step_keeps c admits r p q = ground arith
step_keeps c releases r p q = ground arith

run_keeps :
    (c : ShutdownCoordinator) (xs : List Call) (r : ℕ)
    → r ≤ rank c.phase
    → c.request_gate.accepting ≡ false
    → (r ≤ rank (run c xs).phase) × ((run c xs).request_gate.accepting ≡ false)
unfolding run
run_keeps c [] r p q = (p, q)
run_keeps c (x ∷ xs) r p q = let (p', q') = step_keeps c x r p q in run_keeps (step c x) xs r p' q'

request_reached :
    (c : ShutdownCoordinator)
    → (rank c.phase ≤ rank (request c).0.phase)
      × (1 ≤ rank (request c).0.phase)
      × ((request c).0.request_gate.accepting ≡ false)
unfolding request
request_reached c = ground arith

-- A shutdown request sticks: whatever calls follow, the gate admits nobody, without a panic, and the
-- phase never goes back, neither to before the request nor to running.
pub request_sticks :
    (c : ShutdownCoordinator) (xs : List Call)
    → let d = run (request c).0 xs in
      (Gate.admit d.request_gate ≡ some (d.request_gate, none))
      × (rank c.phase ≤ rank d.phase)
      × (1 ≤ rank d.phase)
unfolding Gate.admit
request_sticks c xs =
    let (p, q, s) = request_reached c in
    let (p', s') = run_keeps (request c).0 xs (rank c.phase) p s in
    let (q', _) = run_keeps (request c).0 xs 1 q s in (ground arith, p', q')
