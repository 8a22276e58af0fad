-- ===== src/Lifecycle/System/Joined.antt =====
-- src/lifecycle.rs: the phase of the shutdown, the gate and the tasks, by where the monitor is.
use roused.Base.{
  ℕ, ◌≡◌, refl, ap, Bool, true, false, some, List, [], ◌∷◌, ◌++◌, All, arith, get_elem?, set,
  All-get_elem?, All-set,
}
use roused.Lifecycle.Gate
use roused.Lifecycle.Gate.{RequestGate}
use roused.Lifecycle.Service.{ServiceLifecycle}
use roused.Lifecycle.Shutdown
use roused.Lifecycle.Shutdown.{
  ShutdownPhase, is_running, is_completed, running, requested, completed,
}
use roused.Lifecycle.System.{
  System, Member, MonitorPhase, waiting, scanning, finished, Step, acts, admits, leaves, requests,
  ticks, scans, scan_ends, sees_request, sees_shutdown, drains, gives_up, prepares, prepare_ends,
  polls, completes, Reach, here, next, new, begin_cleanup, by_monitor, gate, IsJoined,
}
use roused.Lifecycle.Task.World
use roused.Lifecycle.Task.World.{
  StopTask, checking, stopping, waiting_for, arrive, acquire, release, launch, launch_end, scan,
  shutdown, check_end, stop_end,
}

abbrev pub is_finished : MonitorPhase → Bool
is_finished finished = true
is_finished _ = false

-- Whether the cleanup has begun.
abbrev pub is_late : MonitorPhase → Bool
is_late waiting = false
is_late (scanning now i) = false
is_late _ = true

pub record Inv (w : System) : Type 0 where
  pub done : is_completed w.shutdown.phase ≡ true → is_finished w.monitor ≡ true
  pub ended : is_finished w.monitor ≡ true → is_completed w.shutdown.phase ≡ true
  pub joined : is_finished w.monitor ≡ true → All IsJoined w.members
  pub closed : is_late w.monitor ≡ true → (gate w).accepting ≡ false

not_nil :
    {A : Type 0} (before : List A) (x : A) (after : List A) {xs : List A}
    → xs ≡ []
    → xs ≡ before ++ x ∷ after
    → ⊥
not_nil [] x after e f = absurd cc
not_nil (y ∷ before) x after e f = absurd cc

-- A service without a stop task gets none but from the monitor, and sends no stop.
pub quiet_act :
    {w u : World.World} (st : World.Step w u)
    → by_monitor st ≡ false
    → w.tasks ≡ []
    → (u.tasks ≡ []) × (u.commands ≡ w.commands)
quiet_act (arrive now e) o t = (rw e t, ap World.World.commands e)
quiet_act (acquire s l f e) o t = (rw e t, ap World.World.commands e)
quiet_act (release now s p f e) o t = (rw e t, ap World.World.commands e)
quiet_act (launch now e) o t = (rw e t, ap World.World.commands e)
quiet_act (launch_end now e) o t = (rw e t, ap World.World.commands e)
quiet_act (scan now s a f e) o t = absurd (ground arith)
quiet_act (shutdown s a f e) o t = absurd (ground arith)
quiet_act (check_end before after a run outcome now meanwhile spawns f c e) o t =
    absurd (not_nil before (checking a) after t f)
quiet_act (stop_end before after child f e) o t = absurd (not_nil before (stopping child) after t f)

act-IsJoined :
    (w : System) (i : ℕ) (m : Member) {v : World.World} (st : World.Step m.world v)
    → get_elem? w.members i ≡ some m
    → by_monitor st ≡ false
    → All IsJoined w.members
    → All IsJoined (set w.members i (record m { world = v }))
act-IsJoined w i m {v} st e o h =
    let (t, c) = All-get_elem? IsJoined w.members i m h e in
    All-set IsJoined w.members i (record m { world = v }) h ((quiet_act st o t).0, c)

-- A step of a monitor that has not finished to a phase that is not the last.
other :
    {w u : System}
    → Inv w
    → (is_completed u.shutdown.phase ≡ true → is_completed w.shutdown.phase ≡ true)
    → is_finished w.monitor ≡ false
    → is_finished u.monitor ≡ false
    → (is_late u.monitor ≡ true → (gate u).accepting ≡ false)
    → Inv u
other {w} {u} v p f g l = record {
  done = λ h. absurd (ground (arith, v.done (p h)));
  ended = λ h. absurd (ground arith);
  joined = λ h. absurd (ground arith);
  closed = l;
}

-- The phase is not completed while the monitor is at its `select!`.
running_late :
    (w : System) (now : ℕ)
    → Inv w
    → w.monitor ≡ waiting
    → Inv (begin_cleanup (record w { shutdown = (Shutdown.request w.shutdown).0 }) now)
unfolding begin_cleanup Shutdown.request Gate.close
running_late w now v f = other v (λ h. ground arith) (rw f refl) refl (λ h. refl)

pub poll-IsJoined :
    (w : System) (i : ℕ) (m : Member) (before : List ℕ) (deadline : ℕ) (after : List ℕ) {A : Type 0}
    → get_elem? w.members i ≡ some m
    → m.cleanups ≡ before ++ deadline ∷ after
    → All IsJoined w.members
    → A
poll-IsJoined w i m before deadline after e c h =
    absurd (not_nil before deadline after (All-get_elem? IsJoined w.members i m h e).1 c)

Step-Inv : {w u : System} → Step w u → Inv w → Inv u
unfolding Gate.admit Gate.release Shutdown.request Shutdown.complete begin_cleanup Gate.close
Step-Inv {w} (acts i m x st f o e) v = rw e (record {
  done = v.done;
  ended = v.ended;
  joined = λ h. act-IsJoined w i m st f o (v.joined h);
  closed = v.closed;
})
Step-Inv (admits g a f e) v = rw e (record {
  done = v.done;
  ended = v.ended;
  joined = v.joined;
  closed = λ h. ground (arith, v.closed h);
})
Step-Inv (leaves g n f e) v = rw e (record {
  done = v.done;
  ended = v.ended;
  joined = v.joined;
  closed = λ h. ground (arith, v.closed h);
})
Step-Inv {w} (requests e) v = rw e (record {
  done = λ h. ground (arith, v.done);
  ended = λ h. ground (arith, v.ended);
  joined = v.joined;
  closed = λ h. ground arith;
})
Step-Inv (ticks now f e) v = rw e (other v (λ h. h) (rw f refl) refl (λ h. absurd cc))
Step-Inv (scans now i m f g e) v = rw e (other v (λ h. h) (rw f refl) refl (λ h. absurd cc))
Step-Inv (scan_ends now i f g e) v = rw e (other v (λ h. h) (rw f refl) refl (λ h. absurd cc))
Step-Inv (sees_request now f r e) v = rw e (other v (λ h. h) (rw f refl) refl (λ h. refl))
Step-Inv {w} (sees_shutdown now f e) v = rw e (running_late w now v f)
Step-Inv (drains d f z e) v = rw e (other v (λ h. h) (rw f refl) refl (λ h. v.closed (rw f refl)))
Step-Inv (gives_up d now f l z e) v =
    rw e (other v (λ h. h) (rw f refl) refl (λ h. v.closed (rw f refl)))
Step-Inv (prepares d i m f g e) v =
    rw e (other v (λ h. h) (rw f refl) refl (λ h. v.closed (rw f refl)))
Step-Inv (prepare_ends d i f g e) v =
    rw e (other v (λ h. h) (rw f refl) refl (λ h. v.closed (rw f refl)))
Step-Inv {w} (polls i m before after d now end f c p e) v = rw e (record {
  done = v.done;
  ended = v.ended;
  joined = λ h. poll-IsJoined w i m before d after f c (v.joined h);
  closed = v.closed;
})
Step-Inv {w} (completes f a e) v =
    let shut : (gate w).accepting ≡ false = v.closed (rw f refl) in
    rw e (record {
      done = λ h. refl;
      ended = λ h. ground arith;
      joined = λ h. a;
      closed = λ h. ground arith;
    })

pub Reach-Inv : {w u : System} → Reach w u → Inv w → Inv u
Reach-Inv here v = v
Reach-Inv (next r st) v = Step-Inv st (Reach-Inv r v)

pub completed_of : (p : ShutdownPhase) → is_completed p ≡ true → p ≡ completed
completed_of running h = absurd cc
completed_of requested h = absurd cc
completed_of completed h = refl

pub new-Inv : (services : List ServiceLifecycle) (g : RequestGate) → Inv (new services g)
unfolding new Shutdown.new
new-Inv services g = record {
  done = λ h. absurd cc;
  ended = λ h. absurd cc;
  joined = λ h. absurd cc;
  closed = λ h. absurd cc;
}
