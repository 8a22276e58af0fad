-- ===== src/Lifecycle/Task/Bounded.antt =====
-- src/lifecycle.rs: how often a service is stopped, in every interleaving.
use roused.Base.{
  ℕ, ◌+◌, ◌≤◌, ◌≡◌, refl, Bool, true, false, Option, none, some, List, [], ◌∷◌, ◌++◌, All, length,
  arith, is_some_of,
}
use roused.Lifecycle.Service.{ServiceLifecycle, note_request_arrival_at, acquire_at, release_at}
use roused.Lifecycle.Service.Attempt.{
  StopAttempt, StopCommandSpec, begin_stop_attempt_at, begin_shutdown_attempt,
  finish_started_stop_command, finish_vetoed_attempt_at, start_allowed_attempt_at,
}
use roused.Lifecycle.Task.{StopCheckOutcome, allowed, vetoed, timed_out, settle}
use roused.Wake.{WakeEvent}
use roused.Lifecycle.Task.World.{
  StopTask, checking, stopping, World, waiting_for, Step, arrive, acquire, release, launch,
  launch_end, scan, shutdown, check_end, stop_end, Reach, here, next, start,
}
use roused.Lifecycle.Task.Safety.{Inv, IsNew, count_of, flag_set, Reach-Inv, start-Inv}

-- Whether the step is request activity: an arrival, a new lease or the end of one.
abbrev activity : {w u : World} → Step w u → ℕ
activity (arrive now e) = 1
activity (acquire s l h e) = 1
activity (release now s p h e) = 1
activity _ = 0

pub activities : {w u : World} → Reach w u → ℕ
activities here = 0
activities (next r st) = activities r + activity st

-- The generation of the service has had its stop.
abbrev signalled : ServiceLifecycle → Bool
signalled s = is_some_of s.stop_attempted_generation s.generation

-- An attempt waits for its check only while its generation has had no stop.
abbrev Waits : Bool → StopTask → Type 0
Waits b (checking a) = b ≡ false
Waits b (stopping c) = Unit

All-wait : (ts : List StopTask) → All (Waits false) ts
All-wait [] = tt
All-wait (checking a ∷ ts) = (refl, All-wait ts)
All-wait (stopping c ∷ ts) = (tt, All-wait ts)

record Paced (w : World) (n : ℕ) : Type 0 where
  waits : All (Waits (signalled w.service)) w.tasks
  paced : length w.commands ≤ n + count_of (signalled w.service)

Waits-in :
    (b : Bool) (before after : List StopTask) (a : StopAttempt)
    → All (Waits b) (before ++ checking a ∷ after)
    → b ≡ false
Waits-in b [] after a h = h.0
Waits-in b (t ∷ before) after a h = Waits-in b before after a h.1

unsignalled : (u : World) (n : ℕ) → signalled u.service ≡ false → length u.commands ≤ n → Paced u n
unsignalled u n h p = record { waits = rw h (All-wait u.tasks); paced = omega (arith, p) }

no_other :
    (b : Bool) (before after : List StopTask) (c : Option StopCommandSpec)
    → length (before ++ after) ≡ 0
    → All (Waits b) (before ++ waiting_for c after)
no_other b [] [] none h = tt
no_other b [] [] (some c) h = (tt, tt)
no_other b [] (t ∷ after) c h = absurd (omega arith)
no_other b (t ∷ before) after c h = absurd (omega arith)

settle_paced :
    (s : ServiceLifecycle) (a : StopAttempt) (o : StopCheckOutcome) (now : ℕ)
    (meanwhile : List WakeEvent) (spawns : Bool) (commands : List StopCommandSpec) (n : ℕ)
    → signalled s ≡ false
    → length commands ≤ n + count_of (signalled s)
    → length (settle s a o now meanwhile spawns commands).2
      ≤ n + count_of (signalled (settle s a o now meanwhile spawns commands).0)
unfolding settle start_allowed_attempt_at finish_vetoed_attempt_at
settle_paced s a allowed now meanwhile true commands n h p = ground arith
settle_paced s a allowed now meanwhile false commands n h p = ground arith
settle_paced s a vetoed now meanwhile spawns commands n h p = ground arith
settle_paced s a StopCheckOutcome.failed now meanwhile spawns commands n h p = ground arith
settle_paced s a timed_out now meanwhile spawns commands n h p = ground arith

Step-Paced : {w u : World} (n : ℕ) (st : Step w u) → Inv w → Paced w n → Paced u (n + activity st)
unfolding note_request_arrival_at acquire_at release_at begin_stop_attempt_at begin_shutdown_attempt
    finish_started_stop_command
Step-Paced {w} {u} n (arrive now e) v p =
    unsignalled u (n + 1) (ground arith) (ground (arith, p.paced))
Step-Paced {w} {u} n (acquire s l h e) v p =
    unsignalled u (n + 1) (ground arith) (ground (arith, p.paced))
Step-Paced {w} {u} n (release now s q h e) v p =
    unsignalled u (n + 1) (ground arith) (ground (arith, p.paced))
Step-Paced {w} n (launch now e) v p =
    rw e (record { waits = p.waits; paced = omega (arith, p.paced) })
Step-Paced {w} n (launch_end now e) v p =
    rw e (record { waits = p.waits; paced = omega (arith, p.paced) })
Step-Paced {w} {u} n (scan now s a h e) v p =
    unsignalled u (n + 0) (ground arith) (ground (arith, p.paced))
Step-Paced {w} {u} n (shutdown s a h e) v p =
    unsignalled u (n + 0) (ground arith) (ground (arith, p.paced))
Step-Paced {w} n (check_end before after a run o now meanwhile spawns t h e) v p =
    let (set, alone) = flag_set w before after (checking a) v t in
    let off = Waits-in _ before after a (rw t at p.waits) in
    rw e (record {
      waits = no_other _ before after _ alone;
      paced =
          omega (arith, settle_paced w.service a o now meanwhile spawns w.commands n off p.paced);
    })
Step-Paced {w} n (stop_end before after child t e) v p =
    let (set, alone) = flag_set w before after (stopping child) v t in
    rw e (record { waits = no_other _ before after none alone; paced = omega (arith, p.paced) })

Reach-Paced : {w u : World} (r : Reach w u) → Inv w → Paced w 0 → Paced u (activities r)
unfolding activities
Reach-Paced here v p = p
Reach-Paced (next r st) v p = Step-Paced (activities r) st (Reach-Inv r v) (Reach-Paced r v p)

start-Paced : (s : ServiceLifecycle) → IsNew s → Paced (start s) 0
unfolding start
start-Paced s h = unsignalled _ 0 (ground arith) (omega arith)

-- In every interleaving from a new service, the stop commands that were spawned are at most one more
-- than the arrivals, the leases taken and the leases ended.
pub stops_bounded :
    {w : World} (s : ServiceLifecycle) (h : IsNew s) (r : Reach (start s) w)
    → length w.commands ≤ activities r + 1
stops_bounded s h r = ground (arith, (Reach-Paced r (start-Inv s h) (start-Paced s h)).paced)
