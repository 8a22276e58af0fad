-- ===== src/Wake/Tests.antt =====
-- src/wake.rs: the launch decisions on concrete targets.
use roused.Base.{ℕ, ◌+◌, arith, ◌≤◌, ◌≡◌, refl, true, none, some, [], ◌∷◌}
use roused.Base.Duration.{from_secs}
use roused.Base.Text.{codes, to_decimal, digits_onto}
use roused.Net.{v4}
use roused.Process.{finished, elapsed, exited}
use roused.Wake.{
  WakeTarget, eligible, launching, succeeded, failed, timed_out, next_launch, request_launch_at,
  launch_in_progress, allow_launch_after_stop, run_bounded_command, command_spec, start,
}
use roused.Wake.Dedup.{
  Launching, Reach, here, next, request, stop_looks, stop_allows, overtakings, requests, one_launch,
  count_of, launch_retried,
}

abbrev target : WakeTarget
target = record {
  upstream = record { ip = v4 127 0 0 1; port = 8_080; scope_id = 0 };
  launchd_label = codes "dev.local.api";
  user_id = 501;
  state = eligible;
}

abbrev running : WakeTarget
running = record target { state = launching }

command_spec_test : command_spec target ≡ record {
  program = codes "/bin/launchctl";
  arguments = codes "kickstart" ∷ codes "gui/501/dev.local.api" ∷ [];
  timeout = from_secs 5;
}
unfolding command_spec to_decimal digits_onto
command_spec_test = refl

outcomes_test :
    (run_bounded_command (some (finished (exited 0))) ≡ succeeded)
    × (run_bounded_command (some (finished (exited 7))) ≡ failed)
    × (run_bounded_command (some elapsed) ≡ timed_out)
    × (run_bounded_command none ≡ failed)
unfolding run_bounded_command
outcomes_test = (refl, refl, refl, refl)

abbrev idle : Launching
idle = record { target = target; commands = 0; stops = 0 }

abbrev one : Launching
one = record { target = running; commands = 1; stops = 0 }

abbrev looking : Launching
looking = record { target = target; commands = 0; stops = 1 }

abbrev overtaken : Launching
overtaken = record { target = running; commands = 1; stops = 1 }

abbrev allowed : Launching
allowed = record { target = target; commands = 1; stops = 0 }

abbrev two : Launching
two = record { target = running; commands = 2; stops = 0 }

-- A stop looks, a request starts a launch, the stop lets another follow, and a request starts it.
two_run : Reach idle two
unfolding request_launch_at next_launch allow_launch_after_stop launch_in_progress
two_run =
    let looks : Reach idle looking = next here (stop_looks refl refl) in
    let starts : Reach idle overtaken = next looks (request 0 refl) in
    let allows : Reach idle allowed = next starts (stop_allows (omega arith) refl) in
    next allows (request 1 refl)

one_launch_example :
    (count_of (launch_in_progress two.target) ≤ 2)
    × (2 ≤ count_of (launch_in_progress two.target) + overtakings two_run)
    × ((overtakings two_run ≡ 0) → 2 ≡ count_of (launch_in_progress two.target))
one_launch_example = one_launch {s = idle} {u = two} refl (λ e. cc) two_run

starts : (request_launch_at target 10).1 ≡ true
unfolding request_launch_at next_launch
starts = refl

abbrev soon : ℕ
soon = 4_000_000_000

abbrev late : ℕ
late = 7_000_000_000

launch_retried_example :
    (requests (start running (some elapsed) 1_000_000_000).0 (soon ∷ [])
      ≡ ((start running (some elapsed) 1_000_000_000).0, 0))
    × (requests (start running (some elapsed) 1_000_000_000).0 (soon ∷ late ∷ late ∷ [])
        ≡ (record running { state = launching }, 1))
launch_retried_example =
    launch_retried running (some elapsed) 1_000_000_000 (soon ∷ []) late (late ∷ [])
      (omega arith, tt) (omega arith)
