-- ===== src/Lifecycle/System/Completes.antt =====
-- src/lifecycle.rs: the shutdown of the system is never stuck.
use roused.Base.{
  ℕ, zero, suc, ◌+◌, ◌≤◌, ◌≡◌, refl, ◌∙◌, ◌⊎◌, inl, inr, some, List, ◌∷◌, All, length, arith,
  get_elem?, get_elem?-lt, length-set, All-get_elem?, Option-cases, Bool-cases, ◌==◌,
}
use roused.Lifecycle.Gate.{RequestGate}
use roused.Lifecycle.Service.{ServiceLifecycle}
use roused.Lifecycle.Shutdown
use roused.Lifecycle.Shutdown.{completed}
use roused.Lifecycle.System.{
  System, Member, MonitorPhase, waiting, scanning, draining, preparing, joining, finished, Step,
  scans, scan_ends, sees_shutdown, drains, gives_up, prepares, prepare_ends, completes, Reach, here,
  next, new, begin_cleanup, gate, IsJoined, scan_member, prepare_member,
}
use roused.Lifecycle.System.Joined.{Reach-Inv, new-Inv, completed_of}
use roused.Lifecycle.System.Members.{member-Reach}
use roused.Lifecycle.System.Work.{total, Step-work}
use roused.Lifecycle.Task.Command.{HasProgram}
use roused.Lifecycle.Task.World.{StopTask}
use roused.Lifecycle.System.Progress.{
  CanComplete, then_CanComplete, members_cases, Ends, poll_ends, task_ends,
}

abbrev pub Checked : ServiceLifecycle → Type 0
Checked s = HasProgram s.can_stop_command

module _ (services : List ServiceLifecycle) (g : RequestGate) (checks : All Checked services) where
  member_ends :
      (w : System) (i : ℕ) (m : Member)
      → Reach (new services g) w
      → get_elem? w.members i ≡ some m
      → ((d : ℕ) × (ds : List ℕ) × (m.cleanups ≡ d ∷ ds))
        ⊎ ((t : StopTask) × (ts : List StopTask) × (m.world.tasks ≡ t ∷ ts))
      → Ends w
  member_ends w i m r e (inl (d, ds, f)) = poll_ends w i m d ds e f
  member_ends w i m r e (inr (t, ts, f)) =
      let (s, at, reached) = member-Reach services g i m r e in
      task_ends w i m s t ts e f (All-get_elem? Checked services i s checks at) reached

  joined-CanComplete : (w : System) → w.monitor ≡ joining → All IsJoined w.members → CanComplete w
  unfolding Shutdown.complete
  joined-CanComplete w j all = (_, next here (completes j all refl), completed_of _ (ground arith))

  joins :
      (n : ℕ) (w : System)
      → total w.members ≤ n
      → Reach (new services g) w
      → w.monitor ≡ joining
      → CanComplete w
  joins zero w h r j = elim (members_cases w.members) [
    | inl all ↦ joined-CanComplete w j all
    | inr (i, m, e, there) ↦
        let (u, st, one, same) = member_ends w i m r e there in
        absurd (omega (arith, one, (Step-work st (rw j refl)).1))
  ]
  joins (suc n) w h r j = elim (members_cases w.members) [
    | inl all ↦ joined-CanComplete w j all
    | inr (i, m, e, there) ↦
        let (u, st, one, same) = member_ends w i m r e there in
        then_CanComplete st
          (joins n u (omega (arith, one, (Step-work st (rw j refl)).1)) (next r st) (same ∙ j))
  ]

  join-CanComplete : (w : System) → Reach (new services g) w → w.monitor ≡ joining → CanComplete w
  join-CanComplete w r j = joins (total w.members) w (omega arith) r j

  prepares-CanComplete :
      (n deadline i : ℕ) (w : System)
      → length w.members ≤ i + n
      → Reach (new services g) w
      → w.monitor ≡ preparing deadline i
      → CanComplete w
  prepares-CanComplete zero d i w h r p = elim (Option-cases (get_elem? w.members i)) [
    | inl e ↦
        let st = prepare_ends d i p e refl in
        then_CanComplete st (join-CanComplete _ (next r st) refl)
    | inr (m, e) ↦ absurd (omega (arith, get_elem?-lt w.members i m e))
  ]
  prepares-CanComplete (suc n) d i w h r p = elim (Option-cases (get_elem? w.members i)) [
    | inl e ↦
        let st = prepare_ends d i p e refl in
        then_CanComplete st (join-CanComplete _ (next r st) refl)
    | inr (m, e) ↦
        let st = prepares d i m p e refl in
        then_CanComplete st (
          prepares-CanComplete n d (suc i) _
            (omega (arith, length-set w.members i (prepare_member d m))) (next r st) refl)
  ]

  drain-CanComplete :
      (deadline : ℕ) (w : System)
      → Reach (new services g) w
      → w.monitor ≡ draining deadline
      → CanComplete w
  drain-CanComplete d w r p = elim (Bool-cases ((gate w).admitted == 0)) [
    | inl z ↦
        let st : Step w (record w { monitor = preparing d 0 }) = drains d p (ground arith) refl in
        then_CanComplete st
          (prepares-CanComplete (length w.members) d 0 _ (omega arith) (next r st) refl)
    | inr z ↦
        let st = gives_up d d p (omega arith) z refl in
        then_CanComplete st (join-CanComplete _ (next r st) refl)
  ]

  wait-CanComplete : (w : System) → Reach (new services g) w → w.monitor ≡ waiting → CanComplete w
  unfolding begin_cleanup
  wait-CanComplete w r p =
      let st = sees_shutdown 0 p refl in
      then_CanComplete st (drain-CanComplete _ _ (next r st) refl)

  scans-CanComplete :
      (n now i : ℕ) (w : System)
      → length w.members ≤ i + n
      → Reach (new services g) w
      → w.monitor ≡ scanning now i
      → CanComplete w
  scans-CanComplete zero now i w h r p = elim (Option-cases (get_elem? w.members i)) [
    | inl e ↦
        let st = scan_ends now i p e refl in
        then_CanComplete st (wait-CanComplete _ (next r st) refl)
    | inr (m, e) ↦ absurd (omega (arith, get_elem?-lt w.members i m e))
  ]
  scans-CanComplete (suc n) now i w h r p = elim (Option-cases (get_elem? w.members i)) [
    | inl e ↦
        let st = scan_ends now i p e refl in
        then_CanComplete st (wait-CanComplete _ (next r st) refl)
    | inr (m, e) ↦
        let st = scans now i m p e refl in
        then_CanComplete st (
          scans-CanComplete n now (suc i) _
            (omega (arith, length-set w.members i (scan_member now m))) (next r st) refl)
  ]

  finished-CanComplete :
      (w : System) → Reach (new services g) w → w.monitor ≡ finished → CanComplete w
  finished-CanComplete w r p =
      let v = Reach-Inv r (new-Inv services g) in
      (w, here, completed_of w.shutdown.phase (v.ended (rw p refl)))

  phase-CanComplete :
      (phase : MonitorPhase) (w : System)
      → Reach (new services g) w
      → w.monitor ≡ phase
      → CanComplete w
  phase-CanComplete waiting w r p = wait-CanComplete w r p
  phase-CanComplete joining w r p = join-CanComplete w r p
  phase-CanComplete finished w r p = finished-CanComplete w r p
  phase-CanComplete (scanning now i) w r p =
      scans-CanComplete (length w.members) now i w (omega arith) r p
  phase-CanComplete (draining d) w r p = drain-CanComplete d w r p
  phase-CanComplete (preparing d i) w r p =
      prepares-CanComplete (length w.members) d i w (omega arith) r p

-- The shutdown is never stuck: when no service has an empty check command, then from every state that
-- is reached from the start there is a way on to a state in which the shutdown is completed, whatever
-- is in flight, holds an admission, or waits for a child process.
pub shutdown_can_complete :
    (services : List ServiceLifecycle) (g : RequestGate) (w : System)
    → All Checked services
    → Reach (new services g) w
    → (u : System) × Reach w u × (u.shutdown.phase ≡ completed)
shutdown_can_complete services g w checks r = phase-CanComplete services g checks w.monitor w r refl
