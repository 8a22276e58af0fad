-- ===== src/Wake/Dedup.antt =====
-- src/wake.rs, `request_launch_at` over histories: how many `launchctl kickstart` commands run.
use roused.Base.{
  ℕ, ◌+◌, ◌-◌, ◌≤◌, ◌<◌, ◌≡◌, ◌≢◌, refl, Bool, true, false, List, [], ◌∷◌, ◌++◌, ◌∙◌, All, arith,
  if◌then◌else◌,
}
use mathlib.Core.List.{append-nil}
use roused.Wake.{
  launching, cooling_down_until, WakeTarget, retry_cooldown, is_launching, allow_launch_after_stop,
  launch_in_progress, request_launch_at, launch_finished_at, start,
}
use roused.Process.{Run}

abbrev pub count_of : Bool → ℕ
count_of b = if b then 1 else 0

-- Requests at the given times, one after the other: the target after them and the launches started.
pub requests : WakeTarget → List ℕ → WakeTarget × ℕ
requests t [] = (t, 0)
requests t (now ∷ nows) =
    let (u, start) = request_launch_at t now in
    let (v, n) = requests u nows in (v, count_of start + n)

-- A target with the launch commands that run for it and the stops that have found no launch in
-- progress and have not let one follow yet. The two take the lock of the target one after the other,
-- with the spawn of the stop command in between.
pub record Launching : Type 0 where
  pub target : WakeTarget
  pub commands : ℕ
  pub stops : ℕ

pub data Step (s u : Launching) : Type 0 where
  request :
      (now : ℕ)
      → u ≡ record s {
        target = (request_launch_at s.target now).0;
        commands = s.commands + count_of (request_launch_at s.target now).1;
      }
      → Step s u
  finish :
      (now : ℕ)
      → 0 < s.commands
      → u ≡ record s { target = launch_finished_at s.target now; commands = s.commands - 1 }
      → Step s u
  stop_looks : launch_in_progress s.target ≡ false → u ≡ record s { stops = s.stops + 1 } → Step s u
  stop_fails : 0 < s.stops → u ≡ record s { stops = s.stops - 1 } → Step s u
  stop_allows :
      0 < s.stops
      → u ≡ record s { target = allow_launch_after_stop s.target; stops = s.stops - 1 }
      → Step s u

pub data Reach (s : Launching) : Launching → Type 0 where
  here : Reach s s
  next : {t u : Launching} → Reach s t → Step t u → Reach s u

-- A stop that lets a launch follow although one has started since it looked.
abbrev pub overtaken : {s u : Launching} → Step s u → ℕ
overtaken (request now e) = 0
overtaken (finish now p e) = 0
overtaken (stop_looks q e) = 0
overtaken (stop_fails p e) = 0
overtaken {s} (stop_allows p e) = count_of (is_launching s.target.state)

unfoldable pub overtakings : {s u : Launching} → Reach s u → ℕ
overtakings here = 0
overtakings (next r step) = overtakings r + overtaken step

-- A launch in progress has a command, and there is one more for each of `n`.
abbrev pub IsCounted : Launching → ℕ → Type 0
IsCounted s n =
    (count_of (is_launching s.target.state) ≤ s.commands)
    × (s.commands ≤ count_of (is_launching s.target.state) + n)

request_counted :
    (t : WakeTarget) (now : ℕ)
    → count_of (is_launching t.state) + count_of (request_launch_at t now).1
      ≡ count_of (is_launching (request_launch_at t now).0.state)
unfolding request_launch_at
request_counted t now = ground arith

Step-IsCounted :
    {s u : Launching} (n : ℕ) (step : Step s u) → IsCounted s n → IsCounted u (n + overtaken step)
unfolding launch_in_progress launch_finished_at allow_launch_after_stop
Step-IsCounted {s} n (request now e) h =
    rw e (omega (arith, request_counted s.target now, h.0, h.1))
Step-IsCounted {s} n (finish now p e) h = rw e (ground arith)
Step-IsCounted {s} n (stop_looks q e) h = rw e (omega (arith, h.0, h.1))
Step-IsCounted {s} n (stop_fails p e) h = rw e (omega (arith, h.0, h.1))
Step-IsCounted {s} n (stop_allows p e) h = rw e (omega (arith, h.0, h.1))

Reach-IsCounted : {s u : Launching} (r : Reach s u) → IsCounted s 0 → IsCounted u (overtakings r)
unfolding overtakings
Reach-IsCounted here h = h
Reach-IsCounted (next r step) h = Step-IsCounted (overtakings r) step (Reach-IsCounted r h)

-- From a target for which no launch runs, in any interleaving of requests, launches that end and stops
-- that look for a launch, spawn their command and let a launch follow: a launch in progress has a
-- `launchctl kickstart` that runs, and the commands that run are one for it and at most one more for
-- each stop that let a launch follow although one had started since it looked. Without such a stop one
-- command runs while a launch is in progress, and none otherwise.
pub one_launch :
    {s u : Launching}
    → s.commands ≡ 0
    → s.target.state ≢ launching
    → (r : Reach s u)
    → (count_of (launch_in_progress u.target) ≤ u.commands)
      × (u.commands ≤ count_of (launch_in_progress u.target) + overtakings r)
      × ((overtakings r ≡ 0) → u.commands ≡ count_of (launch_in_progress u.target))
unfolding launch_in_progress
one_launch {s} h n r =
    let start : IsCounted s 0 = ground arith in
    let (least, most) = Reach-IsCounted r start in (least, most, λ none. omega (arith, least, most))

requests_launching :
    (t : WakeTarget) (nows : List ℕ) → t.state ≡ launching → requests t nows ≡ (t, 0)
unfolding requests request_launch_at
requests_launching t [] h = refl
requests_launching t (now ∷ nows) h = ground (arith, requests_launching t nows h)

-- However many requests come to a target that is eligible, or whose cooldown has passed when the
-- first comes, they start one launch.
pub requests_start_one :
    (t : WakeTarget) (now : ℕ) (nows : List ℕ)
    → (request_launch_at t now).1 ≡ true
    → requests t (now ∷ nows) ≡ (record t { state = launching }, 1)
unfolding requests request_launch_at
requests_start_one t now nows h =
    ground (arith, requests_launching (record t { state = launching }) nows refl)

cooled :
    (t : WakeTarget) (f : ℕ)
    → (launch_finished_at t f).state ≡ cooling_down_until (f + retry_cooldown)
unfolding launch_finished_at
cooled t f = refl

restarts :
    (t : WakeTarget) (f now : ℕ)
    → f + retry_cooldown ≤ now
    → (request_launch_at (launch_finished_at t f) now).1 ≡ true
unfolding launch_finished_at request_launch_at
restarts t f now h = ground arith

requests-nil : (t : WakeTarget) → requests t [] ≡ (t, 0)
unfolding requests
requests-nil t = refl

requests_early :
    (t : WakeTarget) (until : ℕ) (early rest : List ℕ)
    → t.state ≡ cooling_down_until until
    → All (λ n. n < until) early
    → requests t (early ++ rest) ≡ requests t rest
unfolding requests request_launch_at
requests_early t until [] rest e h = refl
requests_early t until (n ∷ early) rest e (h, hs) =
    ground (arith, requests_early t until early rest e hs)

-- While the cooldown of the launch that ended at `f` lasts, requests start no launch and change
-- nothing; the first request from its end on starts one, whatever came before, and with it the
-- requests that follow start no other.
pub requests_cooldown :
    (t : WakeTarget) (f : ℕ) (early : List ℕ) (now : ℕ) (later : List ℕ)
    → All (λ n. n < f + retry_cooldown) early
    → f + retry_cooldown ≤ now
    → (requests (launch_finished_at t f) early ≡ (launch_finished_at t f, 0))
      × (requests (launch_finished_at t f) (early ++ now ∷ later)
          ≡ (record (launch_finished_at t f) { state = launching }, 1))
requests_cooldown t f early now later h k =
    let t' = launch_finished_at t f in
    let u = f + retry_cooldown in
    (
      rw (← append-nil early) (requests_early t' u early [] (cooled t f) h ∙ requests-nil t'),
      requests_early t' u early (now ∷ later) (cooled t f) h
          ∙ requests_start_one t' now later (restarts t f now k),
    )

-- Whatever becomes of a launch (the command is not spawned, fails, is not done in time or succeeds), its
-- task ends with a cooldown from its end at `f` on. While the cooldown lasts, requests start no launch
-- and change nothing; the first request from its end on starts one, whatever came before, and with it
-- the requests that follow start no other.
pub launch_retried :
    (t : WakeTarget) (run : Run) (f : ℕ) (early : List ℕ) (now : ℕ) (later : List ℕ)
    → All (λ n. n < f + retry_cooldown) early
    → f + retry_cooldown ≤ now
    → (requests (start t run f).0 early ≡ ((start t run f).0, 0))
      × (requests (start t run f).0 (early ++ now ∷ later) ≡ (record t { state = launching }, 1))
unfolding start launch_finished_at
launch_retried t run f early now later h k = requests_cooldown t f early now later h k
