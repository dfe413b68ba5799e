-- ===== src/CString/Order.antt =====
-- `strcmp`.
use weensy_osvm.Base.{ℕ, ◌+◌, ◌≤◌, ◌<◌, ◌≡◌, ◌≢◌, ◌⊎◌}
use weensy_osvm.Memory.{Mem}

-- The first place where two strings differ, or the end of both: the result is the order of the
-- characters there.
pub record IsDecided (m : Mem) (a b n n' i : ℕ) : Type 0 where
  pub within : (i ≤ n) × (i ≤ n')
  pub before : (j : ℕ) → j < i → m (a + j) ≡ m (b + j)
  pub here : (m (a + i) ≢ m (b + i)) ⊎ ((i ≡ n) × (i ≡ n'))
