-- ===== src/CString/Search.antt =====
-- `strchr`.
use weensy_osvm.Base.{
  ℕ, zero, suc, ◌+◌, ◌-◌, ◌%◌, ◌^◌, ◌≤◌, ◌<◌, ◌≡◌, ◌≢◌, inl, inr, refl, ◌==◌, some, arith,
  Bool-cases,
}
use weensy_osvm.Memory.{Mem}
use weensy_osvm.CString.{strchr}
use weensy_osvm.CString.Length.{IsString, IsString-first, IsString-rest, IsString-empty}

-- The result is NULL and the character does not occur, or the address of its first place, the
-- end of the string included.
pub data IsFound (m : Mem) (s n c r : ℕ) : Type 0 where
  missing : r ≡ 0 → ((i : ℕ) → i ≤ n → m (s + i) ≢ c % 2 ^ 8) → IsFound m s n c r
  found :
      (i : ℕ)
      → r ≡ s + i
      → i ≤ n
      → ((j : ℕ) → j < i → m (s + j) ≢ c % 2 ^ 8)
      → m (s + i) ≡ c % 2 ^ 8
      → IsFound m s n c r

module _ (m : Mem) where
  IsFound-next : (s n c r : ℕ) → m s ≢ c % 2 ^ 8 → IsFound m (s + 1) n c r → IsFound m s (suc n) c r
  IsFound-next s n c r ne = elim [
    | missing null none ↦ missing null (λ i h. elim (Bool-cases (i == 0)) [
      | inl first ↦ ground (arith, ne)
      | inr later ↦ ground (arith, none (i - 1) (ground arith))
    ])
    | found i e h before here ↦
        found (suc i) (omega arith) (omega arith)
          (λ j l. elim (Bool-cases (j == 0)) [
            | inl first ↦ ground (arith, ne)
            | inr later ↦ ground (arith, before (j - 1) (ground arith))
          ])
          (ground (arith, here))
  ]

  IsFound-first : (s n c : ℕ) → m s ≡ c % 2 ^ 8 → IsFound m s n c s
  IsFound-first s n c here =
      found 0 (omega arith) (omega arith) (λ j l. absurd (omega arith)) (ground (arith, here))

-- `strchr` finds the first place of the character, which may be the end of the string.
pub strchr_lem :
    (m : Mem) (n fuel s c : ℕ)
    → IsString m s n
    → n < fuel
    → (r : ℕ) × IsFound m s n c r × (strchr fuel m s c ≡ some r)
unfolding strchr
strchr_lem m n zero s c str h = absurd (omega arith)
strchr_lem m zero (suc fuel) s c str h = elim (Bool-cases (m s == c % 2 ^ 8)) [
  | inl here ↦ (s, IsFound-first m s 0 c (ground arith), ground arith)
  | inr ne ↦ (0, missing refl (λ i l. ground (arith, ne)), ground (arith, IsString-empty str))
]
strchr_lem m (suc n) (suc fuel) s c str h = elim (Bool-cases (m s == c % 2 ^ 8)) [
  | inl here ↦ (s, IsFound-first m s (suc n) c (ground arith), ground arith)
  | inr ne ↦
      let (r, is_found, e) = strchr_lem m n fuel (s + 1) c (IsString-rest str) (omega arith) in
      (r, IsFound-next m s n c r (ground arith) is_found, ground (arith, IsString-first str, e))
]
