-- ===== src/Lifecycle/System/OneDecision.antt =====
-- src/lifecycle.rs, `cleanup_at_shutdown`: how often the cleanup of a service is spawned, and how often
-- its loop decides.
use roused.Base.{
  ℕ, zero, suc, ◌+◌, ◌≤◌, ◌≡◌, refl, ap, Bool, some, List, [], ◌∷◌, ◌++◌, All, map, length,
  length-middle, arith, get_elem?, set, ◌==◌, ltb, if◌then◌else◌, ◌&&◌, Bool-cases, inl, inr,
}
use roused.Lifecycle.Gate.{RequestGate}
use roused.Lifecycle.Monitor.{CleanupEnd, spawns_cleanup}
use roused.Lifecycle.Service.{ServiceLifecycle}
use roused.Lifecycle.Shutdown.{completed}
use roused.Lifecycle.System.{
  System, Member, MonitorPhase, waiting, scanning, draining, preparing, joining, finished, Step,
  acts, admits, leaves, requests, ticks, scans, scan_ends, sees_request, sees_shutdown, drains,
  gives_up, prepares, prepare_ends, polls, completes, Reach, here, next, new, begin_cleanup,
  scan_member, prepare_member, end_cleanup, IsJoined, member_of,
}
use roused.Lifecycle.System.Joined.{Reach-Inv, new-Inv}

-- The cleanup tasks of the service at a position that still poll.
abbrev pub polling : ℕ → List Member → ℕ
polling i [] = 0
polling zero (m ∷ members) = length m.cleanups
polling (suc i) (m ∷ members) = polling i members

abbrev at_position : ℕ → ℕ → ℕ → ℕ
at_position i j n = if i == j then n else 0

polling-set :
    (members : List Member) (i j : ℕ) (x y : Member)
    → get_elem? members j ≡ some x
    → polling i (set members j y) + at_position i j (length x.cleanups)
      ≡ polling i members + at_position i j (length y.cleanups)
polling-set [] i j x y e = absurd (cc)
polling-set (m ∷ members) zero zero x y e =
    let same : m ≡ x = cc in omega (arith, ap (λ z. length z.cleanups) same)
polling-set (m ∷ members) zero (suc j) x y e = ground arith
polling-set (m ∷ members) (suc i) zero x y e = ground arith
polling-set (m ∷ members) (suc i) (suc j) x y e = ground (arith, polling-set members i j x y e)

-- Whether a step spawns the cleanup of the service at a position, and whether its loop decides there.
abbrev pub spawns_at : {w u : System} → ℕ → Step w u → ℕ
spawns_at i (prepares d j m f g e) = if i == j && spawns_cleanup m.world.service then 1 else 0
spawns_at i _ = 0

abbrev pub decides_at : {w u : System} → ℕ → Step w u → ℕ
decides_at i (polls j m before after d now end f c p e) = if i == j then 1 else 0
decides_at i _ = 0

pub cleanups : {w u : System} → ℕ → Reach w u → ℕ
cleanups i here = 0
cleanups i (next r st) = cleanups i r + spawns_at i st

pub decisions : {w u : System} → ℕ → Reach w u → ℕ
decisions i here = 0
decisions i (next r st) = decisions i r + decides_at i st

same_polling :
    (members : List Member) (i j : ℕ) (x y : Member)
    → get_elem? members j ≡ some x
    → y.cleanups ≡ x.cleanups
    → polling i (set members j y) ≡ polling i members
same_polling members i j x y e c =
    let n : length y.cleanups ≡ length x.cleanups = ap length c in
    ground (arith, polling-set members i j x y e)

prepare_polling :
    (members : List Member) (i j d : ℕ) (m : Member)
    → get_elem? members j ≡ some m
    → polling i (set members j (prepare_member d m))
      ≡ polling i members + (if i == j && spawns_cleanup m.world.service then 1 else 0)
unfolding prepare_member
prepare_polling members i j d m e = elim (Bool-cases (spawns_cleanup m.world.service)) [
  | inl b ↦ ground (arith, polling-set members i j m (prepare_member d m) e)
  | inr b ↦ ground (arith, polling-set members i j m (prepare_member d m) e)
]

decide_polling :
    (members : List Member) (i j : ℕ) (m : Member) (end : CleanupEnd) (before : List ℕ) (d : ℕ)
    (after : List ℕ)
    → get_elem? members j ≡ some m
    → m.cleanups ≡ before ++ d ∷ after
    → polling i (set members j (end_cleanup end (before ++ after) m)) + (if i == j then 1 else 0)
      ≡ polling i members
unfolding end_cleanup
decide_polling members i j m end before d after e c =
    let n : length m.cleanups ≡ length (before ++ after) + 1 =
      rw c (length-middle before d after) in
    ground (arith, polling-set members i j m (end_cleanup end (before ++ after) m) e)

-- Whether the first loop of the cleanup has passed the position, or is left out.
abbrev passed : ℕ → MonitorPhase → ℕ
passed i waiting = 0
passed i joining = 1
passed i finished = 1
passed i (scanning now j) = 0
passed i (draining d) = 0
passed i (preparing d j) = if ltb i j then 1 else 0

abbrev Counts : {w u : System} → ℕ → Step w u → Type 0
Counts {w} {u} i st =
    (polling i u.members + decides_at i st ≡ polling i w.members + spawns_at i st)
    × (spawns_at i st + passed i w.monitor ≤ passed i u.monitor)

scanned_cleanups : (now : ℕ) (m : Member) → (scan_member now m).cleanups ≡ m.cleanups
unfolding scan_member
scanned_cleanups now m = refl

passes :
    (i j : ℕ) (spawns : Bool)
    → (if i == j && spawns then 1 else 0) + (if ltb i j then 1 else 0)
      ≤ (if ltb i (suc j) then 1 else 0)
passes i j spawns = ground arith

Step-Counts : {w u : System} (i : ℕ) (st : Step w u) → Counts i st
unfolding begin_cleanup
Step-Counts {w} i (acts j m v st f o e) =
    rw e (omega (arith, same_polling w.members i j m (record m { world = v }) f refl), omega arith)
Step-Counts i (admits g a f e) = rw e (omega arith, omega arith)
Step-Counts i (leaves g n f e) = rw e (omega arith, omega arith)
Step-Counts i (requests e) = rw e (omega arith, omega arith)
Step-Counts i (ticks now f e) = rw (e, f) (omega arith, omega arith)
Step-Counts {w} i (scans now j m f g e) =
    rw (e, f)
      (
        omega (arith, same_polling w.members i j m (scan_member now m) g (scanned_cleanups now m)),
        omega arith,
      )
Step-Counts i (scan_ends now j f g e) = rw (e, f) (omega arith, omega arith)
Step-Counts i (sees_request now f r e) = rw (e, f) (omega arith, omega arith)
Step-Counts i (sees_shutdown now f e) = rw (e, f) (omega arith, omega arith)
Step-Counts i (drains d f z e) = rw (e, f) (omega arith, omega arith)
Step-Counts i (gives_up d now f l z e) = rw (e, f) (omega arith, omega arith)
Step-Counts {w} i (prepares d j m f g e) =
    rw (e, f)
      (
        ground (arith, prepare_polling w.members i j d m g),
        passes i j (spawns_cleanup m.world.service),
      )
Step-Counts i (prepare_ends d j f g e) = rw (e, f) (omega arith, ground arith)
Step-Counts {w} i (polls j m before after d now end f c p e) =
    rw e (omega (arith, decide_polling w.members i j m end before d after f c), omega arith)
Step-Counts i (completes f a e) = rw (e, f) (omega arith, omega arith)

start-polling : (services : List ServiceLifecycle) (i : ℕ) → polling i (map member_of services) ≡ 0
start-polling [] i = refl
start-polling (s ∷ services) zero = refl
start-polling (s ∷ services) (suc i) = start-polling services i

Reach-Counts :
    (services : List ServiceLifecycle) (g : RequestGate) (i : ℕ) {w : System}
    (r : Reach (new services g) w)
    → (polling i w.members + decisions i r ≡ cleanups i r) × (cleanups i r ≤ passed i w.monitor)
unfolding new decisions cleanups
Reach-Counts services g i here = (omega (arith, start-polling services i), omega arith)
Reach-Counts services g i (next r st) =
    let (n, p) = Reach-Counts services g i r in
    let (n', p') = Step-Counts i st in (omega (arith, n, n'), omega (arith, p, p'))

passed_bound : (i : ℕ) (p : MonitorPhase) → passed i p ≤ 1
passed_bound i waiting = omega arith
passed_bound i joining = omega arith
passed_bound i finished = omega arith
passed_bound i (scanning now j) = omega arith
passed_bound i (draining d) = omega arith
passed_bound i (preparing d j) = ground arith

joined-polling : (members : List Member) (i : ℕ) → All IsJoined members → polling i members ≡ 0
joined-polling [] i h = refl
joined-polling (m ∷ members) zero h = ap length h.0.1
joined-polling (m ∷ members) (suc i) h = joined-polling members i h.1

-- In every interleaving from the start to a state in which the shutdown is completed, the cleanup of a
-- service has been spawned at most once, and its loop has decided exactly as often as it was spawned.
pub one_decision :
    (services : List ServiceLifecycle) (g : RequestGate) (i : ℕ) (w : System)
    (r : Reach (new services g) w)
    → w.shutdown.phase ≡ completed
    → (cleanups i r ≤ 1) × (decisions i r ≡ cleanups i r)
one_decision services g i w r done =
    let (n, p) = Reach-Counts services g i r in
    let v = Reach-Inv r (new-Inv services g) in
    let none_left = joined-polling w.members i (v.joined (v.done (rw done refl))) in
    (omega (arith, p, passed_bound i w.monitor), omega (arith, n, none_left))
