-- ===== src/Process/Verdict.antt =====
-- Commands that test the state: they leave it alone where a condition holds, and fail where not.
use weensy_osvm.Base.{
  ℕ, zero, suc, ◌+◌, ◌<◌, ◌≡◌, ◌⊎◌, inl, inr, refl, sym, subst, Bool, true, false, if◌then◌else◌,
  arith,
}
use mathlib.Core.Bool.{true≢false}
use weensy_osvm.State.{
  Kernel, Run, ok, panic, stop, out_of_bounds, K, pure, ◌>>◌, assert, assert_when,
}

-- The check fails: it panics, or it has read outside an array before it could.
abbrev pub IsFailed : Run (Unit {0}) → Type 0
IsFailed r = (r ≡ panic) ⊎ (r ≡ stop out_of_bounds)

abbrev pub Verdict : (I : Type 0) → Run (Unit {0}) → Kernel → Type 0
Verdict I r k = (I × (r ≡ ok tt k)) ⊎ ((¬ I) × IsFailed r)

pub Verdict-map :
    {I J : Type 0} {r : Run (Unit {0})} {k : Kernel}
    → (I → J)
    → (J → I)
    → Verdict I r k
    → Verdict J r k
Verdict-map to from (inl (i, e)) = inl (to i, e)
Verdict-map to from (inr (n, e)) = inr ((λ j. n (from j)), e)

IsFailed-first : (m n : K (Unit {0})) {k : Kernel} → IsFailed (m k) → IsFailed ((m >> n) k)
IsFailed-first m n (inl e) = inl (rw e refl)
IsFailed-first m n (inr e) = inr (rw e refl)

IsFailed-second :
    (m n : K (Unit {0})) {k : Kernel} → m k ≡ ok tt k → IsFailed (n k) → IsFailed ((m >> n) k)
IsFailed-second m n e (inl f) = inl (rw e f)
IsFailed-second m n e (inr f) = inr (rw e f)

pub Verdict-both :
    {I J : Type 0} (m n : K (Unit {0})) {k : Kernel}
    → Verdict I (m k) k
    → Verdict J (n k) k
    → Verdict (I × J) ((m >> n) k) k
Verdict-both m n (inl (i, e)) (inl (j, f)) = inl ((i, j), rw e f)
Verdict-both m n (inl (i, e)) (inr (never, f)) = inr ((λ (i, j). never j), IsFailed-second m n e f)
Verdict-both m n (inr (never, e)) _ = inr ((λ (i, j). never i), IsFailed-first m n e)

pub assert-Verdict : (b : Bool) (k : Kernel) → Verdict (b ≡ true) (assert b k) k
assert-Verdict true k = inl (refl, refl)
assert-Verdict false k = inr ((λ e. true≢false (sym e)), inl refl)

pub assert_when-Verdict :
    (test b : Bool) (k : Kernel) → Verdict (test ≡ true → b ≡ true) (assert_when test b k) k
assert_when-Verdict true b k = Verdict-map (λ e _. e) (λ f. f refl) (assert-Verdict b k)
assert_when-Verdict false b k = inl ((λ e. absurd (true≢false (sym e))), refl)

-- A check behind a read that is outside an array where `outside` says so.
pub Verdict-within :
    (outside : Bool) {I : Type 0} {r : Run (Unit {0})} {k : Kernel}
    → (outside ≡ true → ¬ I)
    → (outside ≡ false → Verdict I r k)
    → Verdict I (if outside then stop out_of_bounds else r) k
Verdict-within true never within = inr (never refl, inr refl)
Verdict-within false never within = within refl

-- A check that is made only under a condition.
pub Verdict-when :
    (test : Bool) {I : Type 0} {r : Run (Unit {0})} {k : Kernel}
    → Verdict I r k
    → Verdict (test ≡ true → I) (if test then r else ok tt k) k
Verdict-when true v = Verdict-map (λ i _. i) (λ f. f refl) v
Verdict-when false v = inl ((λ e. absurd (true≢false (sym e))), refl)

pub Verdict-if :
    (test : Bool) {I : Type 0} (m : K (Unit {0})) {k : Kernel}
    → Verdict I (m k) k
    → Verdict (test ≡ true → I) ((if test then m else pure tt) k) k
Verdict-if true m v = Verdict-map (λ i _. i) (λ f. f refl) v
Verdict-if false m v = inl ((λ e. absurd (true≢false (sym e))), refl)

pub Verdict-either :
    (test : Bool) {I J : Type 0} {r s : Run (Unit {0})} {k : Kernel}
    → Verdict I r k
    → Verdict J s k
    → Verdict (if test then I else J) (if test then r else s) k
Verdict-either true v w = v
Verdict-either false v w = w

-- One round of a loop of checks, with the rounds behind it.
pub Verdict-next :
    {I I' : ℕ → Type 0} (m rest : K (Unit {0})) {n : ℕ} {k : Kernel}
    → ((d : ℕ) → I' d → I (suc d))
    → ((d : ℕ) → I (suc d) → I' d)
    → Verdict (I zero) (m k) k
    → Verdict ((d : ℕ) → d < n → I' d) (rest k) k
    → Verdict ((d : ℕ) → d < suc n → I d) ((m >> rest) k) k
Verdict-next {I} {I'} m rest {n} forth back now later =
    Verdict-map join (λ all. (all zero (omega arith), λ d l. back d (all (suc d) (omega arith))))
      (Verdict-both m rest now later)
  where
    join : (I zero × ((d : ℕ) → d < n → I' d)) → (d : ℕ) → d < suc n → I d
    join (first, others) zero l = first
    join (first, others) (suc d) l = forth d (others d (omega arith))

-- The end of a loop
pub Verdict-none : {I : ℕ → Type 0} {k : Kernel} → Verdict ((d : ℕ) → d < zero → I d) (ok tt k) k
Verdict-none = inl ((λ d l. absurd (omega arith)), refl)

-- A loop from 0 on
pub Verdict-all :
    (I : ℕ → Type 0) {r : Run (Unit {0})} {n : ℕ} {k : Kernel}
    → Verdict ((d : ℕ) → d < n → I (zero + d)) r k
    → Verdict ((d : ℕ) → d < n → I d) r k
Verdict-all I =
    Verdict-map (λ all d l. subst I (omega arith) (all d l))
      (λ all d l. subst I (omega arith) (all d l))
