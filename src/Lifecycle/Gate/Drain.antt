-- ===== src/Lifecycle/Gate/Drain.antt =====
-- src/lifecycle.rs, `RequestGate`: what closing the gate promises, and who is told of its drain.
use roused.Base.{
  ℕ, ◌-◌, ◌≤◌, ◌<◌, ◌≡◌, refl, ◌⊎◌, Bool, true, false, Option, none, some, ◌==◌, arith,
}
use roused.Lifecycle.Gate.{RequestGate, RequestAdmission, admit, close, release, drop_admission}

pub data Step (g h : RequestGate) : Type 0 where
  admits : (a : Option RequestAdmission) → admit g ≡ some (h, a) → Step g h
  closes : (n : Bool) → close g ≡ (h, n) → Step g h
  releases : (n : Bool) → release g ≡ some (h, n) → Step g h

pub data Reach (g : RequestGate) : RequestGate → Type 0 where
  here : Reach g g
  next : {h k : RequestGate} → Reach g h → Step h k → Reach g k

-- Closed, with at most `n` admitted.
abbrev ClosedBelow : ℕ → RequestGate → Type 0
ClosedBelow n g = (g.accepting ≡ false) × (g.admitted ≤ n)

Step-ClosedBelow : (n : ℕ) {g h : RequestGate} → Step g h → ClosedBelow n g → ClosedBelow n h
unfolding admit close release
Step-ClosedBelow n (admits a e) c = ground arith
Step-ClosedBelow n (closes b e) c = ground arith
Step-ClosedBelow n (releases b e) c = ground arith

Reach-ClosedBelow : (n : ℕ) {g h : RequestGate} → Reach g h → ClosedBelow n g → ClosedBelow n h
Reach-ClosedBelow n here c = c
Reach-ClosedBelow n (next r st) c = Step-ClosedBelow n st (Reach-ClosedBelow n r c)

-- After `close`, whatever requests and releases follow, no request is admitted any more, without a
-- panic and without a change of the gate, and no more are admitted than when the gate closed.
pub closed_for_good :
    (g h : RequestGate)
    → Reach (close g).0 h
    → (admit h ≡ some (h, none)) × (h.admitted ≤ g.admitted)
unfolding admit close
closed_for_good g h r =
    let (c, m) = Reach-ClosedBelow g.admitted r (refl, omega arith) in ground arith

-- Whether the step notifies the waiting cleanup.
abbrev pub notifies : {g h : RequestGate} → Step g h → Bool
notifies (admits a e) = false
notifies (closes n e) = n
notifies (releases n e) = n

-- A step that leaves a closed gate with nothing admitted, where before it was open or something was
-- admitted, notifies the waiting cleanup.
pub drain_notifies :
    (g h : RequestGate) (st : Step g h)
    → (g.accepting ≡ true) ⊎ (0 < g.admitted)
    → h.accepting ≡ false
    → h.admitted ≡ 0
    → notifies st ≡ true
unfolding admit close release
drain_notifies g h (admits a e) p q z = ground arith
drain_notifies g h (closes n e) p q z = ground arith
drain_notifies g h (releases n e) p q z = ground arith

-- Dropping an admission twice releases the gate once; the first drop of a guard that is counted does
-- not panic.
pub drop_twice :
    (g : RequestGate) (a : RequestAdmission)
    → a.released ≡ false
    → 0 < g.admitted
    → (drop_admission g a
        ≡ some (
          record g { admitted = g.admitted - 1 },
          record { released = true },
          g.admitted - 1 == 0,
        ))
      × (drop_admission (record g { admitted = g.admitted - 1 }) (record { released = true })
          ≡ some (record g { admitted = g.admitted - 1 }, record { released = true }, false))
unfolding drop_admission
drop_twice g a u p = ground arith
