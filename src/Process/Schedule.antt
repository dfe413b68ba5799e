-- ===== src/Process/Schedule.antt =====
-- `schedule` and `run`.
use weensy_osvm.Base.{ℕ, ◌+◌, ◌%◌, List, [], ◌∷◌, if◌then◌else◌}
use weensy_osvm.State.{K, ok, stop, polling, ◌>>◌, assert}
use weensy_osvm.Process.{Link, nproc, set_pagetable, key_pressed}
use weensy_osvm.Process.Fork.{is_p_runnable}

module _ (link : Link) where
  -- The state in which `exception_return` goes back to user mode, with `current` running.
  unfoldable pub run : ℕ → K (Unit {0})
  run pid = do
    (λ k. assert (is_p_runnable (k.processes pid).p_state) k)
    (λ k. ok tt (record k { current = pid }))
    (λ k. set_pagetable link (k.processes pid).p_pagetable k)

  -- The loop of `schedule` behind `pid`; each round that finds no process to run reads a key.
  unfoldable pub schedule_loop : (keys : List ℕ) (pid : ℕ) → K (Unit {0})
  schedule_loop [] pid k =
      if is_p_runnable (k.processes ((pid + 1) % nproc)).p_state
      then run ((pid + 1) % nproc) k
      else stop polling
  schedule_loop (c ∷ rest) pid k =
      let next =
        (key_pressed c >> schedule_loop rest ((pid + 1) % nproc)) (record k { keys = rest }) in
      if is_p_runnable (k.processes ((pid + 1) % nproc)).p_state
      then run ((pid + 1) % nproc) k
      else next

  unfoldable pub schedule : K (Unit {0})
  schedule k = schedule_loop k.keys (k.processes k.current).p_pid k
