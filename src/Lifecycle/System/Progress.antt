-- ===== src/Lifecycle/System/Progress.antt =====
-- src/lifecycle.rs: each task of the system can end.
use roused.Base.{
  ℕ, suc, ◌≡◌, refl, ◌⊎◌, inl, inr, false, none, some, List, [], ◌∷◌, All, arith, get_elem?, set,
}
use roused.Lifecycle.Monitor.Cleanup.{cleanup_ends}
use roused.Lifecycle.Service.{ServiceLifecycle}
use roused.Lifecycle.Shutdown.{completed}
use roused.Lifecycle.System.{
  System, Member, Step, acts, polls, Reach, here, next, IsJoined, end_cleanup,
}
use roused.Lifecycle.System.Work.{step_ends}
use roused.Lifecycle.Task.Command.{HasProgram, check_never_panics}
use roused.Lifecycle.Task.World
use roused.Lifecycle.Task.World.{StopTask, checking, stopping, check_end, stop_end, waiting_for}

abbrev pub CanComplete : System → Type 0
CanComplete w = (u : System) × Reach w u × (u.shutdown.phase ≡ completed)

before : {w v u : System} → Step w v → Reach v u → Reach w u
before st here = next here st
before st (next r st') = next (before st r) st'

pub then_CanComplete : {w v : System} → Step w v → CanComplete v → CanComplete w
then_CanComplete st (u, r, e) = (u, before st r, e)

-- A service has joined, or a task of it is there.
member_cases :
    (m : Member)
    → IsJoined m
      ⊎ ((d : ℕ) × (ds : List ℕ) × (m.cleanups ≡ d ∷ ds))
      ⊎ ((t : StopTask) × (ts : List StopTask) × (m.world.tasks ≡ t ∷ ts))
member_cases m = tasks m.world.tasks m.cleanups refl refl
  where
    tasks :
        (ts : List StopTask) (ds : List ℕ)
        → m.world.tasks ≡ ts
        → m.cleanups ≡ ds
        → IsJoined m
          ⊎ ((d : ℕ) × (ds : List ℕ) × (m.cleanups ≡ d ∷ ds))
          ⊎ ((t : StopTask) × (ts : List StopTask) × (m.world.tasks ≡ t ∷ ts))
    tasks [] [] e f = inl (e, f)
    tasks ts (d ∷ ds) e f = inr (inl (d, ds, f))
    tasks (t ∷ ts) [] e f = inr (inr (t, ts, e))

-- Everybody has joined, or a service has not.
pub members_cases :
    (members : List Member)
    → All IsJoined members
      ⊎ ((i : ℕ) × (m : Member) × (get_elem? members i ≡ some m)
          × (((d : ℕ) × (ds : List ℕ) × (m.cleanups ≡ d ∷ ds))
              ⊎ ((t : StopTask) × (ts : List StopTask) × (m.world.tasks ≡ t ∷ ts))))
members_cases [] = inl tt
members_cases (m ∷ members) = elim (member_cases m) [
  | inr there ↦ inr (0, m, refl, there)
  | inl joined ↦ elim (members_cases members) [
    | inl all ↦ inl (joined, all)
    | inr (i, x, e, there) ↦ inr (suc i, x, e, there)
  ]
]

-- A step that ends a task.
abbrev pub Ends : System → Type 0
Ends w = (u : System) × (st : Step w u) × (step_ends st ≡ 1) × (u.monitor ≡ w.monitor)

pub poll_ends :
    (w : System) (i : ℕ) (m : Member) (d : ℕ) (ds : List ℕ)
    → get_elem? w.members i ≡ some m
    → m.cleanups ≡ d ∷ ds
    → Ends w
poll_ends w i m d ds e f =
    let (end, p) =
      cleanup_ends d (record { seen = m.world.service; now = d }) [] tt (omega arith) in
    (
      record w { members = set w.members i (end_cleanup end ds m) },
      polls i m [] ds d d end e f p refl,
      refl,
      refl,
    )

pub task_ends :
    (w : System) (i : ℕ) (m : Member) (s : ServiceLifecycle) (t : StopTask) (ts : List StopTask)
    → get_elem? w.members i ≡ some m
    → m.world.tasks ≡ t ∷ ts
    → HasProgram s.can_stop_command
    → World.Reach (World.start s) m.world
    → Ends w
task_ends w i m s (checking a) ts e f c r =
    let (outcome, o) = check_never_panics s [] ts a none c r f in
    (_, acts i m _ (check_end [] ts a none outcome 0 [] false f o refl) e refl refl, refl, refl)
task_ends w i m s (stopping child) ts e f c r =
    (_, acts i m _ (stop_end [] ts child f refl) e refl refl, refl, refl)
