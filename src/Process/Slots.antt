-- ===== src/Process/Slots.antt =====
-- Which slot `fork` takes, and what it leaves when no memory is free.
use weensy_osvm.Base.{
  ℕ, zero, suc, ◌+◌, ◌-◌, ◌≤◌, ◌<◌, ◌≡◌, ◌≢◌, inl, inr, refl, sym, ◌∙◌, ap, true, false, ◌==◌,
  Bool-cases, arith, fun_ext,
}
use weensy_osvm.X86.{u8}
use weensy_osvm.State.{Kernel, Proc, p_runnable, ok, update}
use weensy_osvm.State.Returns
use weensy_osvm.State.Returns.{Returns, returns}
use weensy_osvm.Physical.{get_free_addr, pagetable_alloc}
use weensy_osvm.Physical.Assign.{IsFull, get_free_addr_lem}
use weensy_osvm.Process.{nproc, modify, set_rax, return_value}
use weensy_osvm.Process.Copy.{copy_pagetable, copy_into}
use weensy_osvm.Process.Fork.{failed, is_p_free, fork_into, slot_loop, fork}

-- `slot` is the first free slot but 0, which is never used.
pub record IsFirstSlot (k : Kernel) (slot : ℕ) : Type 0 where
  pub lower : 0 < slot
  pub upper : slot < nproc
  pub free : is_p_free (k.processes slot).p_state ≡ true
  pub taken : (i : ℕ) → 0 < i → i < slot → is_p_free (k.processes i).p_state ≡ false

module _ (k : Kernel) where
  slot_loop-first :
      (n i slot : ℕ)
      → IsFirstSlot k slot
      → 0 < i
      → i ≤ slot
      → slot < i + n
      → slot_loop n i k ≡ fork_into slot k
  unfolding slot_loop
  slot_loop-first zero i slot first p h l = absurd (omega arith)
  slot_loop-first (suc n) i slot first p h l = elim (Bool-cases (i == slot)) [
    | inl here ↦ let e : i ≡ slot = ground arith in rw (e, first.free) refl
    | inr other ↦
        rw (first.taken i p (ground arith))
          (slot_loop-first n (i + 1) slot first (omega arith) (ground arith) (omega arith))
  ]

  slot_loop-none :
      (n i : ℕ)
      → ((j : ℕ) → i ≤ j → j < i + n → is_p_free (k.processes j).p_state ≡ false)
      → slot_loop n i k ≡ return_value failed k
  unfolding slot_loop
  slot_loop-none zero i taken = refl
  slot_loop-none (suc n) i taken =
      rw (taken i (omega arith) (omega arith))
        (slot_loop-none n (i + 1) (λ j h l. taken j (omega arith) (omega arith)))

  get_free_addr-full : (owner : ℕ) → IsFull k → get_free_addr owner k ≡ ok 0 k
  get_free_addr-full owner full = Returns.only (get_free_addr_lem owner k) (λ r k'. elim [
    | inl (_, null, same) ↦ (null, same)
    | inr first ↦ absurd (free_busy (sym first.free ∙ full r first.aligned first.below))
  ])
    where
      free_busy : true ≡ false → ⊥
      free_busy e = cc

  pagetable_alloc-full : IsFull k → pagetable_alloc k ≡ ok 0 k
  unfolding pagetable_alloc
  pagetable_alloc-full full = rw (get_free_addr-full k.pagetable_owner full) refl

-- `copy_pagetable` without a free page only sets the owner.
pub copy_pagetable-full :
    (k : Kernel) (pagetable owner : ℕ)
    → IsFull k
    → copy_pagetable pagetable owner k ≡ ok 0 (record k { pagetable_owner = u8 owner })
unfolding copy_pagetable copy_into
copy_pagetable-full k pagetable owner full =
    rw (pagetable_alloc-full (record k { pagetable_owner = u8 owner }) full) refl

-- The child of a `fork` that found no page for its page table, in the slot `i`.
abbrev pub stillborn : Kernel → ℕ → Proc
stillborn k i = record {
  p_pid = i;
  p_registers = (k.processes k.current).p_registers;
  p_state = p_runnable;
  p_pagetable = 0;
}

-- The state of `fork` before it copies the page table.
abbrev started : Kernel → ℕ → Kernel
started k i =
    modify i
      (λ p. record p {
        p_state = p_runnable;
        p_registers = (k.processes k.current).p_registers;
        p_pid = i;
      })
      k

-- `fork` takes the lowest free slot from 1 on, where that is not the current process. Without a free
-- page the parent gets -1, and the slot is left as a runnable process with the parent's registers
-- whose page table is NULL.
pub fork-full :
    (k : Kernel) (slot : ℕ)
    → IsFirstSlot k slot
    → IsFull k
    → (k.current ≢ slot)
    → fork k
      ≡ ok tt (record k {
        processes =
            update
              (update k.processes slot (stillborn k slot))
              k.current
              (set_rax failed (k.processes k.current));
        pagetable_owner = u8 (u8 slot);
      })
unfolding fork fork_into
fork-full k slot first full other =
    slot_loop-first k (nproc - 1) 1 slot first (omega arith) first.lower
      (omega (arith, first.upper))
    ∙ rw
        (copy_pagetable-full (started k slot) ((started k slot).processes k.current).p_pagetable
          (u8 slot) full)
        (ap
          (λ processes. ok tt (record k { processes = processes; pagetable_owner = u8 (u8 slot) }))
          (fun_ext (λ j. ground arith)))

-- Without a free slot `fork` gives -1 to the parent and changes nothing else.
pub fork-no_slot :
    (k : Kernel)
    → ((i : ℕ) → 0 < i → i < nproc → is_p_free (k.processes i).p_state ≡ false)
    → fork k ≡ ok tt (modify k.current (set_rax failed) k)
unfolding fork
fork-no_slot k taken = slot_loop-none k (nproc - 1) 1 (λ j h l. taken j (omega arith) (omega arith))
