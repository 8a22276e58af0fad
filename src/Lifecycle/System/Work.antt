-- ===== src/Lifecycle/System/Work.antt =====
-- src/lifecycle.rs, the join of `cleanup_at_shutdown`: what the tasks still have to do.
use roused.Base.{
  ℕ, zero, suc, ◌+◌, ◌*◌, ◌≤◌, ◌≡◌, refl, ap, Bool, true, false, Option, none, some, List, [], ◌∷◌,
  ◌++◌, length, length-middle, arith, get_elem?, set,
}
use roused.Lifecycle.Monitor.{CleanupEnd, runs, not_repeated, left_running}
use roused.Lifecycle.Service.Attempt.{StopAttempt, StopCommandSpec}
use roused.Lifecycle.System.{
  System, Member, MonitorPhase, joining, finished, Step, acts, admits, leaves, requests, ticks,
  scans, scan_ends, sees_request, sees_shutdown, drains, gives_up, prepares, prepare_ends, polls,
  completes, Reach, here, next, by_monitor, end_cleanup,
}
use roused.Lifecycle.Task.{settle}
use roused.Lifecycle.Task.World
use roused.Lifecycle.Task.World.{
  StopTask, checking, stopping, waiting_for, arrive, acquire, release, launch, launch_end, scan,
  shutdown, check_end, stop_end,
}

abbrev pub task_work : List StopTask → ℕ
task_work [] = 0
task_work (checking a ∷ tasks) = 2 + task_work tasks
task_work (stopping child ∷ tasks) = 1 + task_work tasks

-- A cleanup that polls may go on to an attempt, whose check may go on to a stop command.
abbrev pub work : Member → ℕ
work m = 3 * length m.cleanups + task_work m.world.tasks

abbrev pub total : List Member → ℕ
total [] = 0
total (m ∷ members) = work m + total members

-- Whether a step is the end of a check, of a stop command or of the polls of a cleanup.
abbrev pub task_ends : {w u : World.World} → World.Step w u → ℕ
task_ends (check_end before after a run outcome now meanwhile spawns f c e) = 1
task_ends (stop_end before after child f e) = 1
task_ends _ = 0

abbrev pub step_ends : {w u : System} → Step w u → ℕ
step_ends (acts i m v st f o e) = task_ends st
step_ends (polls i m before after deadline now end f c p e) = 1
step_ends _ = 0

pub ends : {w u : System} → Reach w u → ℕ
ends here = 0
ends (next r st) = ends r + step_ends st

total-set :
    (members : List Member) (i : ℕ) (x y : Member)
    → get_elem? members i ≡ some x
    → total (set members i y) + work x ≡ total members + work y
total-set [] i x y e = absurd cc
total-set (z ∷ members) zero x y e = let same : z ≡ x = cc in omega (arith, ap work same)
total-set (z ∷ members) (suc i) x y e = omega (arith, total-set members i x y e)

check_end-work :
    (before : List StopTask) (a : StopAttempt) (c : Option StopCommandSpec) (after : List StopTask)
    → task_work (before ++ waiting_for c after) + 1 ≤ task_work (before ++ checking a ∷ after)
check_end-work [] a none after = omega arith
check_end-work [] a (some child) after = omega arith
check_end-work (checking b ∷ before) a c after = omega (arith, check_end-work before a c after)
check_end-work (stopping b ∷ before) a c after = omega (arith, check_end-work before a c after)

stop_end-work :
    (before : List StopTask) (child : StopCommandSpec) (after : List StopTask)
    → task_work (before ++ after) + 1 ≤ task_work (before ++ stopping child ∷ after)
stop_end-work [] child after = omega arith
stop_end-work (checking b ∷ before) child after = omega (arith, stop_end-work before child after)
stop_end-work (stopping b ∷ before) child after = omega (arith, stop_end-work before child after)

act-work :
    {w u : World.World} (st : World.Step w u)
    → by_monitor st ≡ false
    → task_work u.tasks + task_ends st ≤ task_work w.tasks
act-work (arrive now e) o = rw e (omega arith)
act-work (acquire s l f e) o = rw e (omega arith)
act-work (release now s p f e) o = rw e (omega arith)
act-work (launch now e) o = rw e (omega arith)
act-work (launch_end now e) o = rw e (omega arith)
act-work (scan now s a f e) o = absurd (ground arith)
act-work (shutdown s a f e) o = absurd (ground arith)
act-work {w} (check_end before after a run outcome now meanwhile spawns f c e) o =
    rw (e, f)
      (check_end-work before a (settle w.service a outcome now meanwhile spawns w.commands).1 after)
act-work (stop_end before after child f e) o = rw (e, f) (stop_end-work before child after)

end-work :
    (end : CleanupEnd) (m : Member) (before : List ℕ) (d : ℕ) (after : List ℕ)
    → m.cleanups ≡ before ++ d ∷ after
    → work (end_cleanup end (before ++ after) m) + 1 ≤ work m
unfolding end_cleanup
end-work (runs a) m before d after e =
    let n : length m.cleanups ≡ length (before ++ after) + 1 =
      rw e (length-middle before d after) in
    omega (arith, n)
end-work not_repeated m before d after e =
    let n : length m.cleanups ≡ length (before ++ after) + 1 =
      rw e (length-middle before d after) in
    omega (arith, n)
end-work left_running m before d after e =
    let n : length m.cleanups ≡ length (before ++ after) + 1 =
      rw e (length-middle before d after) in
    omega (arith, n)

-- Whether the monitor has come to the join.
abbrev pub is_joining : MonitorPhase → Bool
is_joining joining = true
is_joining finished = true
is_joining _ = false

pub Step-work :
    {w u : System} (st : Step w u)
    → is_joining w.monitor ≡ true
    → (is_joining u.monitor ≡ true) × (total u.members + step_ends st ≤ total w.members)
Step-work {w} (acts i m x st f o e) j =
    rw e (j, omega (arith, total-set w.members i m (record m { world = x }) f, act-work st o))
Step-work (admits g a f e) j = rw e (j, omega arith)
Step-work (leaves g n f e) j = rw e (j, omega arith)
Step-work (requests e) j = rw e (j, omega arith)
Step-work (ticks now f e) j = absurd (ground arith)
Step-work (scans now i m f g e) j = absurd (ground arith)
Step-work (scan_ends now i f g e) j = absurd (ground arith)
Step-work (sees_request now f r e) j = absurd (ground arith)
Step-work (sees_shutdown now f e) j = absurd (ground arith)
Step-work (drains d f z e) j = absurd (ground arith)
Step-work (gives_up d now f l z e) j = absurd (ground arith)
Step-work (prepares d i m f g e) j = absurd (ground arith)
Step-work (prepare_ends d i f g e) j = absurd (ground arith)
Step-work {w} (polls i m before after d now end f c p e) j = rw e (
  j,
  omega (
    arith,
    total-set w.members i m (end_cleanup end (before ++ after) m) f,
    end-work end m before d after c,
  ),
)
Step-work (completes f a e) j = rw e (refl, omega arith)

-- Once the monitor joins its tasks, it stays there or has finished, and the ends of tasks are bounded:
-- whatever else happens, the ends so far and what is left to do, counted as 3 for each cleanup that
-- polls, 2 for each check and 1 for each stop command that is awaited, are at most what was left then.
pub join_bounded :
    {w u : System} (r : Reach w u)
    → is_joining w.monitor ≡ true
    → (is_joining u.monitor ≡ true) × (ends r + total u.members ≤ total w.members)
unfolding ends
join_bounded here j = (j, omega arith)
join_bounded (next r st) j =
    let (k, n) = join_bounded r j in let (k', n') = Step-work st k in (k', omega (arith, n, n'))
