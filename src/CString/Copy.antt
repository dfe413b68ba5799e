-- ===== src/CString/Copy.antt =====
-- `strcpy`.
use weensy_osvm.Base.{ℕ, zero, suc, ◌+◌, ◌≤◌, ◌<◌, ◌≡◌, ◌⊎◌, some, arith}
use weensy_osvm.Memory.{Mem, store8, memcpy}
use weensy_osvm.Memory.Blocks.{memcpy-bytes}
use weensy_osvm.CString.{strcpy, strlen}
use weensy_osvm.CString.Length.{IsString, IsString-first, IsString-rest, IsString-empty, strlen_lem}

-- A write outside a string leaves it a string.
IsString-store8 :
    (m : Mem) (s n a v : ℕ) → (a < s) ⊎ (s + n < a) → IsString m s n → IsString (store8 m a v) s n
unfolding store8
IsString-store8 m s n a v apart str = record {
  characters = λ i h. ground (arith, str.characters i h);
  end = ground (arith, str.end);
}

strcpy-memcpy :
    (n fuel : ℕ) (m : Mem) (dst src : ℕ)
    → IsString m src n
    → n < fuel
    → (dst < src) ⊎ (src + n < dst)
    → strcpy fuel m dst src ≡ some (memcpy m dst src (suc n))
unfolding strcpy memcpy store8
strcpy-memcpy n zero m dst src str h apart = absurd (omega arith)
strcpy-memcpy zero (suc fuel) m dst src str h apart = ground (arith, IsString-empty str)
strcpy-memcpy (suc n) (suc fuel) m dst src str h apart = ground (
  arith,
  IsString-first str,
  strcpy-memcpy n fuel (store8 m dst (m src)) (dst + 1) (src + 1)
      (IsString-store8 m (src + 1) n dst (m src) (omega arith) (IsString-rest str)) (omega arith)
      (omega arith),
)

-- The copy is a string of the same length, and nothing else changes.
pub record IsCopied (m : Mem) (dst src n : ℕ) (m' : Mem) : Type 0 where
  pub copy : (i : ℕ) → i ≤ n → m' (dst + i) ≡ m (src + i)
  pub outside : (b : ℕ) → (b < dst) ⊎ (dst + n < b) → m' b ≡ m b
  pub string : IsString m' dst n
  pub length : (fuel : ℕ) → n < fuel → strlen fuel m' dst ≡ some n

-- `strcpy` of a string that lies behind the target's start, or wholly before it, copies it with its
-- end and changes no other byte.
pub strcpy_lem :
    (n fuel : ℕ) (m : Mem) (dst src : ℕ)
    → IsString m src n
    → n < fuel
    → (dst < src) ⊎ (src + n < dst)
    → (m' : Mem) × (strcpy fuel m dst src ≡ some m') × IsCopied m dst src n m'
strcpy_lem n fuel m dst src str h apart =
    let copied = memcpy m dst src (suc n) in
    let at : ((i : ℕ) → i ≤ n → copied (dst + i) ≡ m (src + i)) =
      λ i l. ground (arith, memcpy-bytes m dst src (suc n) (dst + i) (omega arith)) in
    let string : IsString copied dst n = record {
      characters = λ i l. ground (arith, at i (omega arith), str.characters i l);
      end = ground (arith, at n (omega arith), str.end);
    } in
    (
      copied,
      strcpy-memcpy n fuel m dst src str h apart,
      record {
        copy = at;
        outside = λ b o. ground (arith, memcpy-bytes m dst src (suc n) b (omega arith));
        string = string;
        length = λ f l. strlen_lem n f dst string l;
      },
    )
