-- ===== src/Lifecycle/System/Completed.antt =====
-- src/lifecycle.rs: what has happened when the shutdown is completed, and what still can.
use roused.Base.{
  ◌≡◌, refl, ◌∙◌, true, false, none, some, List, All, map, arith, map-set, All-get_elem?,
}
use roused.Lifecycle.Gate
use roused.Lifecycle.Gate.{RequestGate}
use roused.Lifecycle.Service.{ServiceLifecycle}
use roused.Lifecycle.Service.Attempt.{StopCommandSpec}
use roused.Lifecycle.Shutdown
use roused.Lifecycle.Shutdown.{
  ShutdownPhase, is_running, is_completed, running, requested, completed,
}
use roused.Lifecycle.System.{
  System, Step, acts, admits, leaves, requests, ticks, scans, scan_ends, sees_request,
  sees_shutdown, drains, gives_up, prepares, prepare_ends, polls, completes, Reach, here, next, new,
  gate, IsJoined,
}
use roused.Lifecycle.System.Joined.{Inv, quiet_act, poll-IsJoined, Reach-Inv, completed_of, new-Inv}

-- The stop commands that were spawned, by service.
abbrev pub sent : System → List (List StopCommandSpec)
sent w = map (λ m. m.world.commands) w.members

final_step :
    {w u : System}
    → Inv w
    → is_completed w.shutdown.phase ≡ true
    → Step w u
    → (is_completed u.shutdown.phase ≡ true) × (sent u ≡ sent w)
unfolding Gate.admit Gate.release Shutdown.request Shutdown.complete
final_step {w} v h (acts i m x st f o e) =
    let (t, c) = All-get_elem? IsJoined w.members i m (v.joined (v.done h)) f in
    rw e (
      h,
      map-set (λ m. m.world.commands) w.members i m (record m { world = x }) f (quiet_act st o t).1,
    )
final_step v h (admits g a f e) = rw e (h, refl)
final_step v h (leaves g n f e) = rw e (h, refl)
final_step v h (requests e) = rw e (ground arith, refl)
final_step v h (ticks now f e) = absurd (ground (arith, v.done h))
final_step v h (scans now i m f g e) = absurd (ground (arith, v.done h))
final_step v h (scan_ends now i f g e) = absurd (ground (arith, v.done h))
final_step v h (sees_request now f r e) = absurd (ground (arith, v.done h))
final_step v h (sees_shutdown now f e) = absurd (ground (arith, v.done h))
final_step v h (drains d f z e) = absurd (ground (arith, v.done h))
final_step v h (gives_up d now f l z e) = absurd (ground (arith, v.done h))
final_step v h (prepares d i m f g e) = absurd (ground (arith, v.done h))
final_step v h (prepare_ends d i f g e) = absurd (ground (arith, v.done h))
final_step {w} v h (polls i m before after d now end f c p e) =
    poll-IsJoined w i m before d after f c (v.joined (v.done h))
final_step v h (completes f a e) = absurd (ground (arith, v.done h))

final :
    {w u : System}
    → Inv w
    → is_completed w.shutdown.phase ≡ true
    → Reach w u
    → (is_completed u.shutdown.phase ≡ true) × (sent u ≡ sent w)
final v h here = (h, refl)
final v h (next r st) =
    let (c, same) = final v h r in
    let (c', same') = final_step (Reach-Inv r v) c st in (c', same' ∙ same)

late-closed :
    (w : System) → Inv w → is_completed w.shutdown.phase ≡ true → (gate w).accepting ≡ false
late-closed w v h = ground (arith, v.done h, v.closed)

-- Once the phase of the shutdown is completed, in every interleaving from the start and from there on:
-- no stop task and no cleanup task is left on any service, no stop command is spawned any more, the gate
-- admits nobody, and the phase stays.
pub shutdown_completed :
    {w u : System} (services : List ServiceLifecycle) (g : RequestGate)
    → Reach (new services g) w
    → w.shutdown.phase ≡ completed
    → Reach w u
    → All IsJoined u.members
      × (sent u ≡ sent w)
      × (Gate.admit (gate u) ≡ some (gate u, none))
      × (u.shutdown.phase ≡ completed)
unfolding Gate.admit
shutdown_completed {w} {u} services g r h r' =
    let v = Reach-Inv r (new-Inv services g) in
    let (c, same) = final v (rw h refl) r' in
    let v' = Reach-Inv r' v in
    (v'.joined (v'.done c), same, ground (arith, late-closed u v' c), completed_of _ c)
