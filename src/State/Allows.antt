-- ===== src/State/Allows.antt =====
-- Safety of a run: its result and final state, if it has them, satisfy `P`. It may panic or stop.
use weensy_osvm.Base.{Bool, true, false, if◌then◌else◌}
use weensy_osvm.State.{Kernel, Run, ok, panic, stop, Stop, K, and_then}
use weensy_osvm.State.Returns.{Returns, returns}

pub data Allows {A : Type 0} (P : A → Kernel → Type 0) : Run A → Type 0 where
  returned : {a : A} {k : Kernel} → P a k → Allows P (ok a k)
  panicked : Allows P panic
  stopped : {s : Stop} → Allows P (stop s)

module _ {A : Type 0} {P : A → Kernel → Type 0} where
  pub bind :
      {B : Type 0} {Q : B → Kernel → Type 0} {r : Run A} {f : A → K B}
      → Allows P r
      → ((a : A) (k : Kernel) → P a k → Allows Q (f a k))
      → Allows Q (and_then r f)
  bind (returned p) next = next _ _ p
  bind panicked next = panicked
  bind stopped next = stopped

  pub from_Returns : {r : Run A} → Returns P r → Allows P r
  from_Returns (returns p) = returned p

  pub either : (b : Bool) {r s : Run A} → Allows P r → Allows P s → Allows P (if b then r else s)
  either true one other = one
  either false one other = other
