-- ===== src/Paging/Walk.antt =====
-- The tables and entries that a walk for an address meets, level by level, and the lookup as a
-- function of them.
use weensy_osvm.Base.{
  ℕ, zero, suc, ◌≤◌, ◌<◌, ◌≡◌, refl, ap, sym, ◌∙◌, ==_iff, &&_parts, Bool-cases, inl, inr, Bool,
  true, false, ◌&&◌, Option, none, some, arith, ◌==◌, if◌then◌else◌,
}
use weensy_osvm.X86.{pageindex, pte_addr, pte_p, has_flag}
use weensy_osvm.Memory.{Mem, load64}
use weensy_osvm.Paging.{slot}

-- The table that a present entry points to.
unfoldable pub child : ℕ → Option ℕ
child pe = if has_flag pe pte_p then some (pte_addr pe) else none

unfoldable pub entry_in : Mem → ℕ → ℕ → Option ℕ → ℕ
entry_in m va i none = 0
entry_in m va i (some t) = load64 m (slot t va i)

-- The table that the walk for `va` reads at level `i`.
unfoldable pub table : Mem → ℕ → ℕ → ℕ → Option ℕ
unfolding child entry_in
table m pt va zero = some pt
table m pt va (suc i) = child (entry_in m va i (table m pt va i))

-- The entry that the walk reads there; 0 if it does not get so far.
unfoldable pub entry : Mem → ℕ → ℕ → ℕ → ℕ
unfolding table
entry m pt va i = entry_in m va i (table m pt va i)

-- The two addresses have the same indices above level `i`.
abbrev pub same_path : ℕ → ℕ → ℕ → Bool
same_path zero va va' = true
same_path (suc i) va va' = same_path i va va' && pageindex va' i == pageindex va i

entry_in-same :
    (m m' : Mem) (va i : ℕ) (o : Option ℕ)
    → ((t : ℕ) → o ≡ some t → load64 m' (slot t va i) ≡ load64 m (slot t va i))
    → entry_in m' va i o ≡ entry_in m va i o
unfolding entry_in
entry_in-same m m' va i none h = refl
entry_in-same m m' va i (some t) h = h t refl

-- A walk depends on the words that it reads, and on no other.
pub table-same :
    (m m' : Mem) (pt va k : ℕ)
    → ((j t : ℕ)
        → j < k
        → table m pt va j ≡ some t
        → load64 m' (slot t va j) ≡ load64 m (slot t va j))
    → table m' pt va k ≡ table m pt va k
unfolding table
table-same m m' pt va zero h = refl
table-same m m' pt va (suc k) h =
    rw (table-same m m' pt va k (λ j t p. h j t (omega arith)))
      (ap child (entry_in-same m m' va k (table m pt va k) (λ t. h k t (omega arith))))

pub entry-same :
    (m m' : Mem) (pt va k : ℕ)
    → ((j t : ℕ)
        → j < suc k
        → table m pt va j ≡ some t
        → load64 m' (slot t va j) ≡ load64 m (slot t va j))
    → entry m' pt va k ≡ entry m pt va k
unfolding entry
entry-same m m' pt va k h =
    rw (table-same m m' pt va k (λ j t p. h j t (omega arith)))
      (entry_in-same m m' va k (table m pt va k) (λ t. h k t (omega arith)))

-- One step of the walk.
pub table_step : (m : Mem) (pt va i : ℕ) → table m pt va (suc i) ≡ child (entry m pt va i)
unfolding table entry
table_step m pt va i = refl

pub entry_at :
    (m : Mem) (pt va i : ℕ) {t : ℕ}
    → table m pt va i ≡ some t
    → entry m pt va i ≡ load64 m (slot t va i)
unfolding entry entry_in
entry_at m pt va i e = rw e

pub entry-none : (m : Mem) (pt va i : ℕ) → table m pt va i ≡ none → entry m pt va i ≡ 0
unfolding entry entry_in
entry-none m pt va i e = rw e

pub child-present : (pe : ℕ) → has_flag pe pte_p ≡ true → child pe ≡ some (pte_addr pe)
unfolding child
child-present pe h = rw h

pub child-absent : (pe : ℕ) → has_flag pe pte_p ≡ false → child pe ≡ none
unfolding child
child-absent pe h = rw h

pub child-inv : (pe t : ℕ) → child pe ≡ some t → (has_flag pe pte_p ≡ true) × (pte_addr pe ≡ t)
unfolding child
child-inv pe t h = ground arith

entry_in-index :
    (m : Mem) (va va' i : ℕ) (o : Option ℕ)
    → pageindex va' i ≡ pageindex va i
    → entry_in m va' i o ≡ entry_in m va i o
unfolding entry_in slot
entry_in-index m va va' i none e = refl
entry_in-index m va va' i (some t) e = rw e

-- Two addresses with a common path meet the same tables along it.
pub table-same_path :
    (m : Mem) (pt va va' k : ℕ) → same_path k va va' ≡ true → table m pt va' k ≡ table m pt va k
unfolding table
table-same_path m pt va va' zero h = refl
table-same_path m pt va va' (suc k) h =
    let both = &&_parts (same_path k va va') (pageindex va' k == pageindex va k) h in
    rw (table-same_path m pt va va' k both.0) (
      ap child (
        entry_in-index m va va' k (table m pt va k)
          ((==_iff (pageindex va' k) (pageindex va k)).0 both.1)))

pub entry-same_path :
    (m : Mem) (pt va va' k : ℕ)
    → same_path (suc k) va va' ≡ true
    → entry m pt va' k ≡ entry m pt va k
unfolding entry
entry-same_path m pt va va' k h =
    let both = &&_parts (same_path k va va') (pageindex va' k == pageindex va k) h in
    rw (table-same_path m pt va va' k both.0) (
      entry_in-index m va va' k (table m pt va k)
        ((==_iff (pageindex va' k) (pageindex va k)).0 both.1))

-- A walk that has come to a level has come through those above it.
pub table-above :
    (m : Mem) (pt va i : ℕ) {t : ℕ}
    → table m pt va (suc i) ≡ some t
    → (has_flag (entry m pt va i) pte_p ≡ true) × (pte_addr (entry m pt va i) ≡ t)
table-above m pt va i e = child-inv _ _ (sym (table_step m pt va i) ∙ e)

-- Below an absent entry the walk reads nothing.
pub entry-below_absent :
    (m : Mem) (pt va k j : ℕ)
    → has_flag (entry m pt va k) pte_p ≡ false
    → k < j
    → entry m pt va j ≡ 0
unfolding has_flag
entry-below_absent m pt va k zero h lt = absurd (omega arith)
entry-below_absent m pt va k (suc j) h lt = elim (Bool-cases (k == j)) [
  | inl e ↦
      let at : j ≡ k = ground arith in
      entry-none m pt va (suc j) (table_step m pt va j ∙ child-absent _ (rw at h))
  | inr ne ↦ entry-none m pt va (suc j) (
      table_step m pt va j
      ∙ child-absent _ (rw (entry-below_absent m pt va k j h (ground arith)) refl))
]

pub same_path_refl : (k va : ℕ) → same_path k va va ≡ true
same_path_refl zero va = refl
same_path_refl (suc k) va = ground (arith, same_path_refl k va)

-- Two addresses that share a path with a third share it with one another.
pub same_path-join :
    (k va a b : ℕ) → same_path k va a ≡ true → same_path k va b ≡ true → same_path k a b ≡ true
same_path-join zero va a b h h' = refl
same_path-join (suc k) va a b h h' = ground (arith, same_path-join k va a b)

pub same_path-le : (j k va a : ℕ) → j ≤ k → same_path k va a ≡ true → same_path j va a ≡ true
same_path-le j zero va a le h = let e : j ≡ 0 = omega arith in rw e refl
same_path-le j (suc k) va a le h = elim (Bool-cases (j == suc k)) [
  | inl e ↦ let e' : j ≡ suc k = ground arith in rw e' h
  | inr ne ↦ same_path-le j k va a (ground arith) (&&_parts (same_path k va a) _ h).0
]

-- Nor does it meet a table.
pub table-below_absent :
    (m : Mem) (pt va k j : ℕ)
    → has_flag (entry m pt va k) pte_p ≡ false
    → k < j
    → table m pt va j ≡ none
unfolding has_flag
table-below_absent m pt va k zero h lt = absurd (omega arith)
table-below_absent m pt va k (suc j) h lt = elim (Bool-cases (k == j)) [
  | inl e ↦ let at : j ≡ k = ground arith in table_step m pt va j ∙ child-absent _ (rw at h)
  | inr ne ↦
      table_step m pt va j
      ∙ child-absent _ (rw (entry-below_absent m pt va k j h (ground arith)) refl)
]
