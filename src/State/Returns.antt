-- ===== src/State/Returns.antt =====
-- Total correctness of a run: it does not panic, and its result and final state satisfy `P`.
use weensy_osvm.Base.{◌≡◌, ap₂}
use weensy_osvm.State.{Kernel, Run, ok, K, and_then}

pub data Returns {A : Type 0} (P : A → Kernel → Type 0) : Run A → Type 0 where
  returns : {a : A} {k : Kernel} → P a k → Returns P (ok a k)

module _ {A : Type 0} {P : A → Kernel → Type 0} where
  pub bind :
      {B : Type 0} {Q : B → Kernel → Type 0} {r : Run A} {f : A → K B}
      → Returns P r
      → ((a : A) (k : Kernel) → P a k → Returns Q (f a k))
      → Returns Q (and_then r f)
  bind (returns p) next = next _ _ p

  pub weaken :
      {Q : A → Kernel → Type 0} {r : Run A}
      → Returns P r
      → ((a : A) (k : Kernel) → P a k → Q a k)
      → Returns Q r
  weaken (returns p) f = returns (f _ _ p)

  -- A run whose outcome is determined.
  pub only :
      {r : Run A} {a' : A} {k' : Kernel}
      → Returns P r
      → ((a : A) (k : Kernel) → P a k → (a ≡ a') × (k ≡ k'))
      → r ≡ ok a' k'
  only (returns {a} {k} p) f = ap₂ ok (f a k p).0 (f a k p).1
