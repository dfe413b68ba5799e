-- ===== src/Process/Frame.antt =====
-- What an exception leaves alone: the other processes.
use weensy_osvm.Base.{
  ℕ, ◌<◌, ◌≡◌, ◌≢◌, inl, inr, refl, sym, ap, ◌∙◌, true, false, ==_self, ==_ne, Bool-cases, arith,
}
use native.Mathlib.Decide.{ℕ_discrete}
use mathlib.Core.Bool.{true≢false}
use weensy_osvm.State.{Kernel, Proc, update}
use weensy_osvm.State.Keeps.{Stable}
use weensy_osvm.Process.{nproc, modify}
use weensy_osvm.Process.Fork.{is_p_free}

-- From `k0` to `k`: every process but the one that ran is as it was, registers, state and page table;
-- the slots have their numbers, slot 0 is free, and the process that ran keeps its page table and is
-- not freed.
pub record Kept (k0 k : Kernel) : Type 0 where
  pub others :
      (j : ℕ)
      → j ≢ k0.current
      → is_p_free (k0.processes j).p_state ≡ false
      → k.processes j ≡ k0.processes j
  pub pids : (j : ℕ) → j < nproc → (k.processes j).p_pid ≡ j
  pub idle : is_p_free (k.processes 0).p_state ≡ true
  pub own_table : (k.processes k0.current).p_pagetable ≡ (k0.processes k0.current).p_pagetable
  pub own_used : is_p_free (k.processes k0.current).p_state ≡ false

-- The same while the process that ran is still the current one.
pub record Within (k0 k : Kernel) : Type 0 where
  pub kept : Kept k0 k
  pub same_current : k.current ≡ k0.current

pub Within-Stable : (k0 : Kernel) → Stable (Within k0)
Within-Stable k0 k mem pageinfo ticks owner cr3 keys is = record {
  kept = record {
    others = is.kept.others;
    pids = is.kept.pids;
    idle = is.kept.idle;
    own_table = is.kept.own_table;
    own_used = is.kept.own_used;
  };
  same_current = is.same_current;
}

update_self : {A : Type 0} (f : ℕ → A) (i : ℕ) (v : A) → update f i v i ≡ v
update_self f i v = rw (==_self i) refl

update-other : {A : Type 0} (f : ℕ → A) (i j : ℕ) (v : A) → j ≢ i → update f i v j ≡ f j
update-other f i j v h = rw (==_ne j i h) refl

module _ {k0 k : Kernel} (is : Within k0 k) (low : 0 < k0.current) where
  -- A change of the current process's registers or state.
  pub Within-own :
      (f : Proc → Proc)
      → ((p : Proc) → (f p).p_pid ≡ p.p_pid)
      → ((p : Proc) → (f p).p_pagetable ≡ p.p_pagetable)
      → ((p : Proc) → is_p_free p.p_state ≡ false → is_p_free (f p).p_state ≡ false)
      → Within k0 (modify k.current f k)
  Within-own f pid table used = record {
    kept = record {
      others = λ j h n.
          update-other k.processes k.current j (f (k.processes k.current))
            (λ e. h (e ∙ is.same_current))
          ∙ is.kept.others j h n;
      pids = λ j l. elim (ℕ_discrete j k.current) [
        | yes e ↦
            ap (λ (i : ℕ). (update k.processes k.current changed i).p_pid) e
            ∙ (ap (λ (p : Proc). p.p_pid) (update_self k.processes k.current changed)
                ∙ (pid (k.processes k.current)
                    ∙ (ap (λ (i : ℕ). (k.processes i).p_pid) (sym e) ∙ is.kept.pids j l)))
        | no n ↦
            ap (λ (p : Proc). p.p_pid) (update-other k.processes k.current j changed n)
            ∙ is.kept.pids j l
      ];
      idle =
          ap (λ (p : Proc). is_p_free p.p_state)
            (update-other k.processes k.current 0 changed (omega (arith, is.same_current)))
          ∙ is.kept.idle;
      own_table =
          ap (λ (p : Proc). p.p_pagetable) own
          ∙ (table (k.processes k0.current) ∙ is.kept.own_table);
      own_used =
          ap (λ (p : Proc). is_p_free p.p_state) own
          ∙ used (k.processes k0.current) is.kept.own_used;
    };
    same_current = is.same_current;
  }
    where
      changed : Proc
      changed = f (k.processes k.current)

      own : update k.processes k.current changed k0.current ≡ f (k.processes k0.current)
      own =
          ap (λ (i : ℕ). update k.processes k.current changed i) (sym is.same_current)
          ∙ (update_self k.processes k.current changed
              ∙ ap (λ (i : ℕ). f (k.processes i)) is.same_current)

  -- A change of a slot that was free.
  pub Within-slot :
      (i : ℕ) (f : Proc → Proc)
      → 0 < i
      → i ≢ k0.current
      → is_p_free (k0.processes i).p_state ≡ true
      → (f (k.processes i)).p_pid ≡ i
      → Within k0 (modify i f k)
  Within-slot i f positive other free pid = record {
    kept = record {
      others = λ j h n.
          update-other k.processes i j (f (k.processes i)) (λ e.
            true≢false
              (sym free ∙ (ap (λ (x : ℕ). is_p_free (k0.processes x).p_state) (sym e) ∙ n)))
          ∙ is.kept.others j h n;
      pids = λ j l. elim (ℕ_discrete j i) [
        | yes e ↦
            ap (λ (x : ℕ). (update k.processes i (f (k.processes i)) x).p_pid) e
            ∙ (ap (λ (p : Proc). p.p_pid) (update_self k.processes i (f (k.processes i)))
                ∙ (pid ∙ sym e))
        | no n ↦
            ap (λ (p : Proc). p.p_pid) (update-other k.processes i j (f (k.processes i)) n)
            ∙ is.kept.pids j l
      ];
      idle =
          ap (λ (p : Proc). is_p_free p.p_state)
            (update-other k.processes i 0 (f (k.processes i)) (omega arith))
          ∙ is.kept.idle;
      own_table =
          ap (λ (p : Proc). p.p_pagetable)
            (update-other k.processes i k0.current (f (k.processes i)) (λ e. other (sym e)))
          ∙ is.kept.own_table;
      own_used =
          ap (λ (p : Proc). is_p_free p.p_state)
            (update-other k.processes i k0.current (f (k.processes i)) (λ e. other (sym e)))
          ∙ is.kept.own_used;
    };
    same_current = is.same_current;
  }

  -- A slot that is free now was free before, and is not the one of the process that ran.
  pub Within-free :
      (i : ℕ)
      → is_p_free (k.processes i).p_state ≡ true
      → (i ≢ k0.current) × (is_p_free (k0.processes i).p_state ≡ true)
  Within-free i free =
      let other : i ≢ k0.current = λ e.
        true≢false
          (sym free ∙ (ap (λ (x : ℕ). is_p_free (k.processes x).p_state) e ∙ is.kept.own_used)) in
      (
        other,
        elim (Bool-cases (is_p_free (k0.processes i).p_state)) [
          | inl was ↦ was
          | inr used ↦ absurd (
              true≢false (
                sym free
                ∙ (ap (λ (p : Proc). is_p_free p.p_state) (is.kept.others i other used) ∙ used)))
        ],
      )
