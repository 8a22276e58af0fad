-- ===== src/Lifecycle/System/Members.antt =====
-- src/lifecycle.rs: each service of the system lives as one service does alone among all that acts on
-- it.
use roused.Base.{
  ℕ, zero, suc, ◌≡◌, refl, ap, sym, ◌⊎◌, inl, inr, none, some, List, [], ◌∷◌, ◌++◌, All, map,
  length, ◌≤◌, arith, ◌==◌, get_elem?, set, get_elem?-set, All-get_elem?, Option-cases, Bool-cases,
  subst,
}
use roused.Lifecycle.Gate.{RequestGate}
use roused.Lifecycle.Monitor.{
  CleanupEnd, runs, cleanup_service_at_shutdown, spawns_cleanup, scan_from, spawn_list,
}
use roused.Lifecycle.Monitor.Cleanup.{attempt_cases}
use roused.Lifecycle.Service.{ServiceLifecycle}
use roused.Lifecycle.Service.Attempt.{
  StopAttempt, ShutdownAttempt, ready, busy, begin_stop_attempt_at, begin_shutdown_attempt,
}
use roused.Lifecycle.System.{
  System, Member, Step, acts, admits, leaves, requests, ticks, scans, scan_ends, sees_request,
  sees_shutdown, drains, gives_up, prepares, prepare_ends, polls, completes, Reach, here, next, new,
  scan_member, prepare_member, end_cleanup, begin_cleanup, member_of, attempt_of,
}
use roused.Lifecycle.Task.Safety.{IsNew, SendsStop, stop_only_when_quiet, service_accounting}
use roused.Lifecycle.Task.World
use roused.Lifecycle.Task.World.{scan, shutdown, start}

-- A service of the system stays as it is, or takes one of its own steps.
abbrev pub Advances : World.World → World.World → Type 0
Advances w u = (u ≡ w) ⊎ World.Step w u

not_begun :
    (s : ServiceLifecycle) (now : ℕ)
    → (begin_stop_attempt_at s now).1 ≡ none
    → (begin_stop_attempt_at s now).0 ≡ s
unfolding begin_stop_attempt_at
not_begun s now h = ground arith

scan_member-Advances : (now : ℕ) (m : Member) → Advances m.world (scan_member now m).world
unfolding scan_member
scan_member-Advances now m = elim (Option-cases (begin_stop_attempt_at m.world.service now).1) [
  | inl e ↦ inl (rw (e, not_begun m.world.service now e) refl)
  | inr (a, e) ↦ inr (scan now (begin_stop_attempt_at m.world.service now).0 a (cc) (rw e refl))
]

prepare_member-Advances :
    (deadline : ℕ) (m : Member) → Advances m.world (prepare_member deadline m).world
unfolding prepare_member
prepare_member-Advances deadline m = inl (ground arith)

not_ready :
    (s : ServiceLifecycle) (r : ShutdownAttempt)
    → (begin_shutdown_attempt s).1 ≡ r
    → (r ≡ busy) ⊎ (r ≡ ShutdownAttempt.already_signalled)
    → (begin_shutdown_attempt s).0 ≡ s
unfolding begin_shutdown_attempt
not_ready s r h (inl b) = ground arith
not_ready s r h (inr b) = ground arith

-- How the loop of a cleanup ends tells what its last poll found.
end_found :
    (deadline now : ℕ) (s : ServiceLifecycle) (end : CleanupEnd)
    → cleanup_service_at_shutdown deadline (record { seen = s; now = now } ∷ []) ≡ some end
    → ((a : StopAttempt) × (end ≡ runs a) × ((begin_shutdown_attempt s).1 ≡ ready a))
      ⊎ ((attempt_of end ≡ none) × ((begin_shutdown_attempt s).0 ≡ s))
unfolding cleanup_service_at_shutdown
end_found deadline now s end h = elim (attempt_cases (begin_shutdown_attempt s).1) [
  | inl (a, e) ↦ inl (a, ground arith, e)
  | inr (inl e) ↦ inr (ground arith, not_ready s _ e (inr refl))
  | inr (inr e) ↦ inr (ground arith, not_ready s _ e (inl refl))
]

end_cleanup-Advances :
    (deadline now : ℕ) (end : CleanupEnd) (others : List ℕ) (m : Member)
    → cleanup_service_at_shutdown deadline (record { seen = m.world.service; now = now } ∷ [])
      ≡ some end
    → Advances m.world (end_cleanup end others m).world
unfolding end_cleanup
end_cleanup-Advances deadline now end others m h =
    elim (end_found deadline now m.world.service end h) [
      | inl (a, e, f) ↦ inr (shutdown (begin_shutdown_attempt m.world.service).0 a (cc) (rw e refl))
      | inr (e, f) ↦ inl (rw (e, f) refl)
    ]

-- What is at a position after a step was there before, and has stayed or advanced.
abbrev pub From : Member → List Member → ℕ → Type 0
From m' members i = (m : Member) × (get_elem? members i ≡ some m) × Advances m.world m'.world

set-From :
    (members : List Member) (i j : ℕ) (m m' x : Member)
    → get_elem? members i ≡ some m
    → Advances m.world m'.world
    → get_elem? (set members i m') j ≡ some x
    → From x members j
set-From members i j m m' x e a h = elim (get_elem?-set members i j m' x h) [
  | inl (same, is) ↦ (
    m,
    subst (λ (k : ℕ). get_elem? members k ≡ some m) same e,
    subst (λ (y : Member). Advances m.world y.world) is a,
  )
  | inr f ↦ (x, f, inl refl)
]

same-From :
    {xs ys : List Member} (i : ℕ) (m' : Member) → ys ≡ xs → get_elem? ys i ≡ some m' → From m' xs i
same-From i m' e h = (m', rw (← e) h, inl refl)

pub step-From :
    {w u : System} (i : ℕ) (m' : Member)
    → Step w u
    → get_elem? u.members i ≡ some m'
    → From m' w.members i
unfolding begin_cleanup
step-From j x (acts i m v st f o e) h =
    set-From _ i j m (record m { world = v }) x f (inr st) (rw e at h)
step-From j x (admits g a f e) h = same-From j x (ap System.members e) h
step-From j x (leaves g n f e) h = same-From j x (ap System.members e) h
step-From j x (requests e) h = same-From j x (ap System.members e) h
step-From j x (ticks now f e) h = same-From j x (ap System.members e) h
step-From j x (scans now i m f g e) h =
    set-From _ i j m (scan_member now m) x g (scan_member-Advances now m) (rw e at h)
step-From j x (scan_ends now i f g e) h = same-From j x (ap System.members e) h
step-From j x (sees_request now f r e) h = same-From j x (ap System.members e) h
step-From j x (sees_shutdown now f e) h = same-From j x (ap System.members e) h
step-From j x (drains d f z e) h = same-From j x (ap System.members e) h
step-From j x (gives_up d now f l z e) h = same-From j x (ap System.members e) h
step-From j x (prepares d i m f g e) h =
    set-From _ i j m (prepare_member d m) x g (prepare_member-Advances d m) (rw e at h)
step-From j x (prepare_ends d i f g e) h = same-From j x (ap System.members e) h
step-From j x (polls i m before after d now end f c p e) h =
    set-From _ i j m (end_cleanup end (before ++ after) m) x f
      (end_cleanup-Advances d now end (before ++ after) m p) (rw e at h)
step-From j x (completes f a e) h = same-From j x (ap System.members e) h

start-member :
    (services : List ServiceLifecycle) (i : ℕ) (m : Member)
    → get_elem? (map member_of services) i ≡ some m
    → (s : ServiceLifecycle) × (get_elem? services i ≡ some s) × (start s ≡ m.world)
start-member [] i m h = absurd (cc)
start-member (s ∷ services) zero m h = (s, refl, ground arith)
start-member (s ∷ services) (suc i) m h = start-member services i m h

advances-Reach : {w u v : World.World} → World.Reach w u → Advances u v → World.Reach w v
advances-Reach {w} r (inl e) = subst (λ (u : World.World). World.Reach w u) (sym e) r
advances-Reach r (inr st) = World.next r st

-- Each service of the system is reached alone, from the service at its position at the start.
pub member-Reach :
    (services : List ServiceLifecycle) (g : RequestGate) {w : System} (i : ℕ) (m : Member)
    → Reach (new services g) w
    → get_elem? w.members i ≡ some m
    → (s : ServiceLifecycle) × (get_elem? services i ≡ some s) × World.Reach (start s) m.world
unfolding new
member-Reach services g i m here h =
    let (s, e, f) = start-member services i m h in
    (s, e, subst (λ (u : World.World). World.Reach (start s) u) f World.here)
member-Reach services g i m (next r st) h =
    let (before, e, a) = step-From i m st h in
    let (s, f, reached) = member-Reach services g i before r e in (s, f, advances-Reach reached a)

-- From the start with new services, in every interleaving of the idle monitor with its tasks, the
-- requests, the gate and the shutdown: a step leaves the stop commands of the service at a position as
-- they are, or it sends the one for the service's own label, for an attempt that had begun, while the
-- service has no lease and its generation is that of the attempt, and after the attempt has found no
-- launch in progress. A request may start a launch from then on, while the command is spawned. At most
-- one stop task of the service runs, and the in-flight count is the number of its leases.
pub system_stops_quiet :
    {w u : System} (services : List ServiceLifecycle) (g : RequestGate) (i : ℕ) (m' : Member)
    → All IsNew services
    → Reach (new services g) w
    → Step w u
    → get_elem? u.members i ≡ some m'
    → (m : Member) × (get_elem? w.members i ≡ some m)
      × ((m'.world.commands ≡ m.world.commands)
          ⊎ (SendsStop m.world m'.world × (m.world.leases ≡ 0)))
      × (length m.world.tasks ≤ 1)
      × (m.world.service.in_flight ≡ m.world.leases)
system_stops_quiet services g i m' news r st h =
    let (m, e, a) = step-From i m' st h in
    let (s, f, reached) = member-Reach services g i m r e in
    let is_new : IsNew s = All-get_elem? IsNew services i s news f in
    let (counted, one, flag, released) = service_accounting s 0 is_new reached in
    (
      m,
      e,
      elim a [
        | inl same ↦ inl (ap World.World.commands same)
        | inr step ↦ stop_only_when_quiet s is_new reached step
      ],
      one,
      counted,
    )

abbrev pub services_of : List Member → List ServiceLifecycle
services_of members = map (λ m. m.world.service) members

-- With nothing between its rounds, the scan of the members is `scan_at` of their services, and the first
-- loop of the cleanup spawns for those that `spawn_list` says.
pub rounds-scan_from :
    (i now : ℕ) (members : List Member)
    → services_of (map (scan_member now) members) ≡ (scan_from i now (services_of members)).0
unfolding scan_member scan_from
rounds-scan_from i now [] = refl
rounds-scan_from i now (m ∷ members) =
    ap (λ rest. (begin_stop_attempt_at m.world.service now).0 ∷ rest)
      (rounds-scan_from (suc i) now members)

pub rounds-spawn_list :
    (deadline : ℕ) (members : List Member)
    → All (λ m. m.cleanups ≡ []) members
    → map (λ m. length m.cleanups == 1) (map (prepare_member deadline) members)
      ≡ spawn_list (services_of members)
unfolding prepare_member
rounds-spawn_list deadline [] h = refl
rounds-spawn_list deadline (m ∷ members) h = elim (Bool-cases (spawns_cleanup m.world.service)) [
  | inl b ↦ rw (b, h.0, rounds-spawn_list deadline members h.1) refl
  | inr b ↦ rw (b, h.0, rounds-spawn_list deadline members h.1) refl
]
