-- ===== src/CString/Length.antt =====
-- The length of strings.
use weensy_osvm.Base.{ℕ, zero, suc, ◌+◌, ◌<◌, ◌≡◌, ◌≢◌, ltb, if◌then◌else◌, some, arith}
use weensy_osvm.Memory.{Mem}
use weensy_osvm.CString.{strlen_loop, strlen, strnlen_loop, strnlen}

-- A string of `n` characters at `s`.
pub record IsString (m : Mem) (s n : ℕ) : Type 0 where
  pub characters : (i : ℕ) → i < n → m (s + i) ≢ 0
  pub end : m (s + n) ≡ 0

module _ {m : Mem} where
  pub IsString-first : {s n : ℕ} → IsString m s (suc n) → m s ≢ 0
  IsString-first str = ground (arith, str.characters 0 (omega arith))

  pub IsString-rest : {s n : ℕ} → IsString m s (suc n) → IsString m (s + 1) n
  IsString-rest str = record {
    characters = λ i h. ground (arith, str.characters (suc i) (omega arith));
    end = ground (arith, str.end);
  }

  pub IsString-empty : {s : ℕ} → IsString m s 0 → m s ≡ 0
  IsString-empty str = ground (arith, str.end)

  strlen_loop_lem :
      (n fuel s count : ℕ)
      → IsString m s n
      → n < fuel
      → strlen_loop fuel m s count ≡ some (count + n)
  unfolding strlen_loop
  strlen_loop_lem n zero s count str h = absurd (omega arith)
  strlen_loop_lem zero (suc fuel) s count str h = ground (arith, IsString-empty str)
  strlen_loop_lem (suc n) (suc fuel) s count str h = ground (
    arith,
    IsString-first str,
    strlen_loop_lem n fuel (s + 1) (count + 1) (IsString-rest str) (omega arith),
  )

  -- `strlen` returns the number of characters.
  pub strlen_lem : (n fuel s : ℕ) → IsString m s n → n < fuel → strlen fuel m s ≡ some n
  unfolding strlen
  strlen_lem n fuel s str h = ground (arith, strlen_loop_lem n fuel s 0 str h)

  strnlen_loop_lem :
      (n left s count : ℕ)
      → IsString m s n
      → strnlen_loop left m s count ≡ count + (if ltb n left then n else left)
  unfolding strnlen_loop
  strnlen_loop_lem n zero s count str = ground arith
  strnlen_loop_lem zero (suc left) s count str = ground (arith, IsString-empty str)
  strnlen_loop_lem (suc n) (suc left) s count str =
      ground
        (arith, IsString-first str, strnlen_loop_lem n left (s + 1) (count + 1) (IsString-rest str))

  -- `strnlen` returns the number of characters, `maxlen` at most.
  pub strnlen_lem :
      (n s maxlen : ℕ) → IsString m s n → strnlen m s maxlen ≡ (if ltb n maxlen then n else maxlen)
  unfolding strnlen
  strnlen_lem n s maxlen str = ground (arith, strnlen_loop_lem n maxlen s 0 str)
