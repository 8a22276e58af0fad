-- ===== src/Lifecycle/Gate.antt =====
-- src/lifecycle.rs, `RequestGate` and `RequestAdmission`. The mutex makes each method one step. A
-- method returns `none` where the source panics, and says whether it calls `notify_one`.
pub mod Drain
use roused.Base.{
  ℕ, Bool, true, false, Option, none, some, ◌==◌, if◌then◌else◌, ◌>>=◌, List, [], ◌∷◌, leb,
}
use roused.Base.Duration.{checked_duration_since}
use roused.Base.Machine.{checked_inc, checked_dec}

pub record RequestGate : Type 0 where
  pub accepting : Bool
  pub admitted : ℕ

pub record RequestAdmission : Type 0 where
  pub released : Bool

-- `RequestGate::new`.
unfoldable pub new : RequestGate
new = record { accepting = true; admitted = 0 }

-- The gate, and the admission if the gate accepts.
unfoldable pub admit : RequestGate → Option (RequestGate × Option RequestAdmission)
admit g =
    if g.accepting
    then (do
      n ← checked_inc g.admitted
      some (record g { admitted = n }, some (record { released = false })))
    else some (g, none)

unfoldable pub close : RequestGate → RequestGate × Bool
close g = (record g { accepting = false }, g.admitted == 0)

unfoldable pub release : RequestGate → Option (RequestGate × Bool)
release g = do n ← checked_dec g.admitted; some (record g { admitted = n }, n == 0)

-- `Drop for RequestAdmission`: the gate, the guard that is left and whether waiters are notified.
unfoldable pub drop_admission :
    RequestGate → RequestAdmission → Option (RequestGate × RequestAdmission × Bool)
unfolding release
drop_admission g a =
    if a.released
    then some (g, a, false)
    else do (g', notified) ← release g; some (g', record { released = true }, notified)

-- One round of `wait_for_drain_until` as its surroundings make it: the gate that it locks, the time
-- when it looks at the clock, whether the notification comes before the rest of the time is over,
-- and the gate that it locks again if it does not.
pub record Round : Type 0 where
  pub seen : RequestGate
  pub now : ℕ
  pub notified : Bool
  pub seen_late : RequestGate

-- The loop over the rounds that come: `none` means that it still waits.
unfoldable pub wait_for_drain_until : ℕ → List Round → Option Bool
wait_for_drain_until deadline [] = none
wait_for_drain_until deadline (r ∷ rs) =
    let again = wait_for_drain_until deadline rs in
    let waited = if r.notified then again else some (r.seen_late.admitted == 0) in
    if r.seen.admitted == 0
    then some true
    else elim (checked_duration_since deadline r.now) [ none ↦ some false | some d ↦ waited ]
