-- ===== src/Lifecycle/Monitor/Scan.antt =====
-- src/lifecycle.rs, `scan_at`: which services a scan begins a stop attempt for.
use roused.Base.{ℕ, suc, ◌≡◌, refl, Option, none, some, List, [], ◌∷◌, arith}
use roused.Lifecycle.Service.{ServiceLifecycle}
use roused.Lifecycle.Service.Attempt.{StopAttempt, begin_stop_attempt_at}
use roused.Lifecycle.Service.Attempt.Decision.{IsDue, IsDue-sound, IsDue-complete}
use roused.Lifecycle.Monitor.{scan_from, scan_at, with_attempt}

-- What a scan does to the services from index `i` on, and what it spawns.
pub data Scanned (now : ℕ)
    : ℕ → List ServiceLifecycle → List ServiceLifecycle → List (ℕ × StopAttempt) → Type 0 where
  over : (i : ℕ) → Scanned now i [] [] []
  begins :
      {i : ℕ} {s t : ServiceLifecycle} {ss ts : List ServiceLifecycle}
      {spawned : List (ℕ × StopAttempt)} (a : StopAttempt)
      → IsDue s now
      → begin_stop_attempt_at s now ≡ (t, some a)
      → Scanned now (suc i) ss ts spawned
      → Scanned now i (s ∷ ss) (t ∷ ts) ((i, a) ∷ spawned)
  leaves :
      {i : ℕ} {s : ServiceLifecycle} {ss ts : List ServiceLifecycle}
      {spawned : List (ℕ × StopAttempt)}
      → ¬ IsDue s now
      → Scanned now (suc i) ss ts spawned
      → Scanned now i (s ∷ ss) (s ∷ ts) spawned

begin_none :
    (s t : ServiceLifecycle) (now : ℕ)
    → begin_stop_attempt_at s now ≡ (t, none)
    → (¬ IsDue s now) × (t ≡ s)
unfolding begin_stop_attempt_at
begin_none s t now h = (λ d. let e = IsDue-complete s now d in ground arith, ground arith)

begin_some :
    (s t : ServiceLifecycle) (now : ℕ) (a : StopAttempt)
    → begin_stop_attempt_at s now ≡ (t, some a)
    → IsDue s now
unfolding begin_stop_attempt_at
begin_some s t now a h = IsDue-sound s now (ground arith)

scan_one :
    (now i : ℕ) (s : ServiceLifecycle) (r : ServiceLifecycle × Option StopAttempt)
    (ss ts : List ServiceLifecycle) (spawned : List (ℕ × StopAttempt))
    → begin_stop_attempt_at s now ≡ r
    → Scanned now (suc i) ss ts spawned
    → Scanned now i (s ∷ ss) (r.0 ∷ ts) (with_attempt i r.1 spawned)
scan_one now i s (t, none) ss ts spawned e rest =
    let (no_due, same) = begin_none s t now e in rw same (leaves no_due rest)
scan_one now i s (t, some a) ss ts spawned e rest = begins a (begin_some s t now a e) e rest

scan_from-Scanned :
    (now i : ℕ) (ss : List ServiceLifecycle)
    → Scanned now i ss (scan_from i now ss).0 (scan_from i now ss).1
unfolding scan_from
scan_from-Scanned now i [] = over i
scan_from-Scanned now i (s ∷ ss) =
    scan_one now i s (begin_stop_attempt_at s now) ss _ _ refl (scan_from-Scanned now (suc i) ss)

-- A scan begins an attempt, and spawns its task, for each service that is due and for no other, in
-- the order of the services; the services that are not due stay as they are.
pub scan_at-Scanned :
    (now : ℕ) (services : List ServiceLifecycle)
    → Scanned now 0 services (scan_at now services).0 (scan_at now services).1
unfolding scan_at
scan_at-Scanned now services = scan_from-Scanned now 0 services
