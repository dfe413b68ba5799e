-- ===== src/State/Keeps.antt =====
-- Commands that keep a predicate on the state, however they end.
use weensy_osvm.Base.{ℕ, ◌≡◌, subst, List, Bool, true, false, if◌then◌else◌}
use weensy_osvm.Memory.{Mem}
use weensy_osvm.State.{
  PageInfo, Kernel, Run, ok, panic, K, pure, ◌>>=◌, ◌>>◌, assert, assert_when, read64, write64,
  clear,
}
use weensy_osvm.State.Allows.{Allows, returned, panicked, bind}

-- A predicate on `processes` and `current` alone.
abbrev pub Stable : (Kernel → Type 0) → Type 0
Stable P =
    (k : Kernel) (mem : Mem) (pageinfo : ℕ → PageInfo) (ticks owner cr3 : ℕ) (keys : List ℕ)
    → P k
    → P (record k {
      mem = mem;
      pageinfo = pageinfo;
      ticks = ticks;
      pagetable_owner = owner;
      cr3 = cr3;
      keys = keys;
    })

abbrev pub Keeps : (P : Kernel → Type 0) {A : Type 0} → K A → Type 0
Keeps P m = (k : Kernel) → P k → Allows (λ _. P) (m k)

module _ {P : Kernel → Type 0} where
  module _ {A : Type 0} where
    pub Keeps-pure : (a : A) → Keeps P (pure a)
    Keeps-pure a k p = returned p

    pub Keeps-panic : Keeps P {A = A} (λ k. panic)
    Keeps-panic k p = panicked

    pub Keeps-if : (b : Bool) {m n : K A} → Keeps P m → Keeps P n → Keeps P (if b then m else n)
    Keeps-if true km kn = km
    Keeps-if false km kn = kn

    -- A command that first reads the state.
    pub Keeps-at : {f : Kernel → K A} → ((s : Kernel) → Keeps P (f s)) → Keeps P (λ k. f k k)
    Keeps-at kf k p = kf k k p

    pub Keeps-bind :
        {B : Type 0} {m : K A} {f : A → K B}
        → Keeps P m
        → ((a : A) → Keeps P (f a))
        → Keeps P (m >>= f)
    Keeps-bind km kf k p = bind (km k p) (λ a k' p'. kf a k' p')

  pub Keeps-assert : (b : Bool) → Keeps P (assert b)
  Keeps-assert true k p = returned p
  Keeps-assert false k p = panicked

  pub Keeps-assert_when : (test b : Bool) → Keeps P (assert_when test b)
  Keeps-assert_when true b k p = Keeps-assert b k p
  Keeps-assert_when false b k p = returned p

  pub Keeps-read64 : (a : ℕ) → Keeps P (read64 a)
  Keeps-read64 a k p = returned p

  module _ (stable : Stable P) where
    pub Keeps-write64 : (a v : ℕ) → Keeps P (write64 a v)
    Keeps-write64 a v k p =
        returned (stable k _ k.pageinfo k.ticks k.pagetable_owner k.cr3 k.keys p)

    pub Keeps-clear : (a n : ℕ) → Keeps P (clear a n)
    Keeps-clear a n k p = returned (stable k _ k.pageinfo k.ticks k.pagetable_owner k.cr3 k.keys p)

  -- The state of a run that has returned.
  pub of_returned :
      {A : Type 0} {r : Run A} {a : A} {k : Kernel} → Allows (λ _. P) r → r ≡ ok a k → P k
  of_returned {a} {k} allowed e = extract (subst (Allows (λ _. P)) e allowed)
    where
      extract : Allows (λ _. P) (ok a k) → P k
      extract (returned p) = p

-- A run from `P` allows `Q` at its end.
abbrev pub Leads : (P Q : Kernel → Type 0) {A : Type 0} → K A → Type 0
Leads P Q m = (k : Kernel) → P k → Allows (λ _. Q) (m k)

pub Leads-then :
    {P Q R : Kernel → Type 0} {A B : Type 0} {m : K A} {n : K B}
    → Leads P Q m
    → Leads Q R n
    → Leads P R (m >> n)
Leads-then lm ln k p = bind (lm k p) (λ _ k' q. ln k' q)
