-- ===== src/Process/Rounds.antt =====
-- Which process `schedule` runs.
use weensy_osvm.Base.{
  ℕ, zero, suc, ◌+◌, ◌%◌, ◌≤◌, ◌<◌, ◌≡◌, refl, ◌∙◌, Bool, true, false, ◌||◌, ◌==◌, List, [], ◌∷◌,
  ◌++◌, length, arith, ==_iff, ap,
}
use weensy_osvm.X86.{page_offset}
use weensy_osvm.Paging.{virtual_memory_lookup}
use weensy_osvm.State.{Kernel, ok, pure}
use weensy_osvm.Process.{Link, nproc, key_pressed, set_pagetable}
use weensy_osvm.Process.Fork.{is_p_runnable}
use weensy_osvm.Process.Schedule.{run, schedule_loop, schedule}

-- The keys on which `check_keyboard` does nothing; no key at all reads as -1.
abbrev pub is_command : ℕ → Bool
is_command c = c == b'a' || c == b'f' || c == b'e' || c == 0x03 || c == b'q'

pub data AreIdle : List ℕ → Type 0 where
  none : AreIdle []
  idle : {c : ℕ} {rest : List ℕ} → is_command c ≡ false → AreIdle rest → AreIdle (c ∷ rest)

key_pressed-idle : (c : ℕ) → is_command c ≡ false → key_pressed c ≡ pure tt
unfolding key_pressed
key_pressed-idle c h = ground arith

-- The process `d` places behind `pid`, in a ring of NPROC.
abbrev pub behind : (pid d : ℕ) → ℕ
behind pid d = (pid + d) % nproc

-- The `d` places behind `pid` that come first hold no runnable process, and the next one does.
pub record IsNext (k : Kernel) (pid d : ℕ) : Type 0 where
  pub skipped : (e : ℕ) → 0 < e → e ≤ d → is_p_runnable (k.processes (behind pid e)).p_state ≡ false
  pub chosen : is_p_runnable (k.processes (behind pid (suc d))).p_state ≡ true

IsNext-suc :
    {k : Kernel} {pid d : ℕ} (keys : List ℕ)
    → IsNext k pid (suc d)
    → IsNext (record k { keys = keys }) ((pid + 1) % nproc) d
IsNext-suc {k} {pid} {d} keys next = record {
  skipped = λ e p h.
      let at : behind ((pid + 1) % nproc) e ≡ behind pid (suc e) = omega arith in
      rw at (next.skipped (suc e) (omega arith) (omega arith));
  chosen =
      let at : behind ((pid + 1) % nproc) (suc d) ≡ behind pid (suc (suc d)) = omega arith in
      rw at next.chosen;
}

module _ (link : Link) where
  schedule_loop-next :
      (d pid : ℕ) (keys rest : List ℕ) (k : Kernel)
      → AreIdle keys
      → length keys ≡ d
      → k.keys ≡ keys ++ rest
      → IsNext k pid d
      → schedule_loop link (keys ++ rest) pid k
        ≡ run link (behind pid (suc d)) (record k { keys = rest })
  unfolding schedule_loop
  schedule_loop-next zero pid [] [] k i l e next = rw (← e, next.chosen) refl
  schedule_loop-next zero pid [] (c ∷ rest) k i l e next = rw (← e, next.chosen) refl
  schedule_loop-next (suc d) pid [] rest k i l e next = absurd (omega arith)
  schedule_loop-next zero pid (c ∷ keys) rest k i l e next = absurd (omega arith)
  schedule_loop-next (suc d) pid (c ∷ keys) rest k (idle h i) l e next =
      let at : behind ((pid + 1) % nproc) (suc d) ≡ behind pid (suc (suc d)) = omega arith in
      rw (next.skipped 1 (omega arith) (omega arith), key_pressed-idle c h)
        (schedule_loop-next d ((pid + 1) % nproc) keys rest (record k { keys = keys ++ rest }) i
            (omega arith) refl (IsNext-suc (keys ++ rest) next)
          ∙ rw at refl)

-- What `set_pagetable` asserts: the page table is aligned, and it and the kernel's have the
-- mappings that the kernel needs.
pub record IsLoadable (link : Link) (k : Kernel) (pagetable : ℕ) : Type 0 where
  pub aligned : page_offset pagetable ≡ 0
  pub handler :
      (virtual_memory_lookup k.mem pagetable link.default_int_handler).pa ≡ link.default_int_handler
  pub identity : (virtual_memory_lookup k.mem link.kernel_pagetable pagetable).pa ≡ pagetable
  pub kernel_table :
      (virtual_memory_lookup k.mem pagetable link.kernel_pagetable).pa ≡ link.kernel_pagetable
  pub map_function :
      (virtual_memory_lookup k.mem pagetable link.virtual_memory_map_ptr).pa
      ≡ link.virtual_memory_map_ptr

pub set_pagetable_lem :
    (link : Link) (k : Kernel) (pagetable : ℕ)
    → IsLoadable link k pagetable
    → set_pagetable link pagetable k ≡ ok tt (record k { cr3 = pagetable })
unfolding set_pagetable
set_pagetable_lem link k pagetable l =
    rw
      (
        (==_iff _ _).1 l.aligned,
        (==_iff _ _).1 l.handler,
        (==_iff _ _).1 l.identity,
        (==_iff _ _).1 l.kernel_table,
        (==_iff _ _).1 l.map_function,
      )
      refl

run_lem :
    (link : Link) (k : Kernel) (pid : ℕ)
    → is_p_runnable (k.processes pid).p_state ≡ true
    → IsLoadable link k (k.processes pid).p_pagetable
    → run link pid k ≡ ok tt (record k { current = pid; cr3 = (k.processes pid).p_pagetable })
unfolding run
run_lem link k pid runnable l =
    rw
      (
        runnable,
        set_pagetable_lem link (record k { current = pid }) (k.processes pid).p_pagetable
            (record {
              aligned = l.aligned;
              handler = l.handler;
              identity = l.identity;
              kernel_table = l.kernel_table;
              map_function = l.map_function;
            }),
      )
      refl

-- If the next runnable process behind the current one in the ring is `suc d` places on, and the
-- `d` keys that are read until then are no commands, `schedule` runs it with its page table
-- loaded. It takes the `d` keys and changes nothing else.
pub schedule-next :
    (link : Link) (keys rest : List ℕ) (k : Kernel)
    → let pid = (k.processes k.current).p_pid in
      let next = behind pid (suc (length keys)) in
      AreIdle keys
      → k.keys ≡ keys ++ rest
      → IsNext k pid (length keys)
      → IsLoadable link k (k.processes next).p_pagetable
      → schedule link k
        ≡ ok tt (record k { keys = rest; current = next; cr3 = (k.processes next).p_pagetable })
unfolding schedule
schedule-next link keys rest k i e next l =
    let pid = (k.processes k.current).p_pid in
    ap (λ keys. schedule_loop link keys pid k) e
    ∙ (schedule_loop-next link (length keys) pid keys rest k i refl e next
        ∙ run_lem link (record k { keys = rest }) (behind pid (suc (length keys))) next.chosen
            (record {
              aligned = l.aligned;
              handler = l.handler;
              identity = l.identity;
              kernel_table = l.kernel_table;
              map_function = l.map_function;
            }))
