-- ===== src/Lifecycle/Service/Lease.antt =====
-- src/lifecycle.rs, `acquire_at`, `release_at`, `ServiceLease::release_at` and
-- `begin_stop_attempt_at`: the accounting of leases and the idle interval.
use roused.Base.{ℕ, ◌+◌, ◌-◌, ◌%◌, ◌≡◌, refl, true, none, some, arith}
use roused.Base.Machine.{u64_mod, wrapping_inc}
use roused.Lifecycle.Service.{ServiceLifecycle, ServiceLease, acquire_at, release_lease_at}

-- The service after the end of its lease at `now`.
abbrev pub ended : ServiceLifecycle → ℕ → ServiceLifecycle
ended t now = record t {
  state = record (t.state) {
    in_flight = t.in_flight - 1;
    last_completed = now;
    idle_since = now;
    generation = wrapping_inc t.generation;
    last_check_finished = none;
    stop_attempted_generation = none;
  };
}

-- A lease that was taken can be released without a panic. That leaves the count of leases as it was
-- before the lease, moves the generation by two in all, and starts the idle interval anew; a second
-- release of the same lease, at whatever time, changes nothing.
pub lease_roundtrip :
    (s t : ServiceLifecycle) (l : ServiceLease) (now again : ℕ)
    → acquire_at s ≡ some (t, l)
    → (u : ServiceLifecycle) × (release_lease_at t l now ≡ some (u, record { released = true }))
      × (u.in_flight ≡ s.in_flight)
      × (u.generation ≡ (s.generation + 2) % u64_mod)
      × (u.idle_since ≡ now)
      × (u.last_completed ≡ now)
      × (release_lease_at u (record { released = true }) again
          ≡ some (u, record { released = true }))
unfolding acquire_at release_lease_at
lease_roundtrip s t l now again h =
    (ended t now, ground arith, ground arith, ground arith, refl, refl, refl)
