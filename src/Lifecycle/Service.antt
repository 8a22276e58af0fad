-- ===== src/Lifecycle/Service.antt =====
-- src/lifecycle.rs, `ServiceLifecycle` with its `LifecycleState`, and `ServiceLease`. The mutex makes
-- each method one step of the service; the time is an argument. `none` is a panic. The wake target,
-- which the route of the service shares, is part of the service here, its one owner.
pub mod Lease
pub mod Attempt
use roused.Base.{ℕ, ◌<◌, Bool, true, false, Option, none, some, List, ◌>>=◌, if◌then◌else◌}
use roused.Base.Machine.{checked_inc, checked_dec, wrapping_inc}
use roused.Base.Text.{Text}
use roused.Wake.{WakeTarget}

pub record LifecycleState : Type 0 where
  pub in_flight : ℕ
  pub last_completed : ℕ
  pub idle_since : ℕ
  pub generation : ℕ
  pub attempt_in_progress : Bool
  pub last_check_finished : Option ℕ
  pub stop_attempted_generation : Option ℕ

pub record ServiceLifecycle : Type 0 where
  pub launchd_label : Text
  pub user_id : ℕ
  pub idle_timeout : ℕ
  pub can_stop_command : Option (List Text)
  pub wake_target : WakeTarget
  pub state : LifecycleState
  pub open state use *

pub record ServiceLease : Type 0 where
  pub released : Bool

unfoldable pub new_at : Text → ℕ → ℕ → Option (List Text) → WakeTarget → ℕ → ServiceLifecycle
new_at label user idle command wake now = record {
  launchd_label = label;
  user_id = user;
  idle_timeout = idle;
  can_stop_command = command;
  wake_target = wake;
  state = record {
    in_flight = 0;
    last_completed = now;
    idle_since = now;
    generation = 0;
    attempt_in_progress = false;
    last_check_finished = none;
    stop_attempted_generation = none;
  };
}

unfoldable pub note_request_arrival_at : ServiceLifecycle → ℕ → ServiceLifecycle
note_request_arrival_at s now = record s {
  state = record (s.state) {
    idle_since = now;
    generation = wrapping_inc s.generation;
    last_check_finished = none;
    stop_attempted_generation = none;
  };
}

unfoldable pub acquire_at : ServiceLifecycle → Option (ServiceLifecycle × ServiceLease)
acquire_at s = do
  n ← checked_inc s.in_flight
  some (
    record s {
      state = record (s.state) {
        in_flight = n;
        generation = wrapping_inc s.generation;
        last_check_finished = none;
        stop_attempted_generation = none;
      };
    },
    record { released = false },
  )

-- `ServiceLifecycle::release_at`.
unfoldable pub release_at : ServiceLifecycle → ℕ → Option ServiceLifecycle
release_at s now = do
  n ← checked_dec s.in_flight
  some (record s {
    state = record (s.state) {
      in_flight = n;
      last_completed = now;
      idle_since = now;
      generation = wrapping_inc s.generation;
      last_check_finished = none;
      stop_attempted_generation = none;
    };
  })

-- `ServiceLease::release_at`, which the drop of a lease calls.
unfoldable pub release_lease_at :
    ServiceLifecycle → ServiceLease → ℕ → Option (ServiceLifecycle × ServiceLease)
unfolding release_at
release_lease_at s l now =
    if l.released
    then some (s, l)
    else (do s' ← release_at s now; some (s', record { released = true }))
