-- ===== src/Devices/Parallel.antt =====
-- k-hardware.c: `parallel_port_putc`, with its static variable.
use weensy_osvm.Base.{
  ℕ, zero, suc, ◌+◌, ◌*◌, ◌≤◌, ◌≡◌, ◌≢◌, refl, ap, ◌∙◌, ◌==◌, if◌then◌else◌, bit_and, bit_or, ◌∷◌,
  length, inl, inr, Bool-cases, arith,
}
use weensy_osvm.X86.{u8}
use weensy_osvm.Devices.{Trace, Device, inb, outb, writes_to}

abbrev pub io_parallel1_data : ℕ
io_parallel1_data = 0x378

abbrev pub io_parallel1_status : ℕ
io_parallel1_status = 0x379

abbrev pub io_parallel_status_busy : ℕ
io_parallel_status_busy = 0x80

abbrev pub io_parallel1_control : ℕ
io_parallel1_control = 0x37A

-- IO_PARALLEL_CONTROL_SELECT | IO_PARALLEL_CONTROL_INIT
abbrev pub control_idle : ℕ
control_idle = bit_or 0x08 0x04

-- The same with IO_PARALLEL_CONTROL_STROBE.
abbrev pub control_strobe : ℕ
control_strobe = bit_or control_idle 0x01

pub record ParallelPort : Type 0 where
  pub initialized : ℕ
  pub trace : Trace

module _ (device : Device) where
  -- Four reads of an unused port.
  abbrev pub delay : Trace → Trace
  delay t = (inb device 0x84 (inb device 0x84 (inb device 0x84 (inb device 0x84 t).1).1).1).1

  -- The loop that waits for the status, with `n` rounds left.
  unfoldable pub wait_loop : (n : ℕ) → Trace → Trace
  wait_loop zero t = t
  wait_loop (suc n) t =
      let status = inb device io_parallel1_status t in
      let rest = wait_loop n (delay status.1) in
      if bit_and status.0 io_parallel_status_busy == 0 then rest else status.1

  abbrev initialize : ParallelPort → Trace
  initialize port =
      if port.initialized == 0 then outb io_parallel1_control 0 port.trace else port.trace

  unfoldable pub parallel_port_putc : (c color : ℕ) → ParallelPort → ParallelPort
  parallel_port_putc c color port = record {
    initialized = if port.initialized == 0 then 1 else port.initialized;
    trace = outb io_parallel1_control control_idle (
        outb io_parallel1_control control_strobe
          (outb io_parallel1_data c (wait_loop 12800 (initialize port))));
  }

  wait_loop-writes : (n port : ℕ) (t : Trace) → writes_to port (wait_loop n t) ≡ writes_to port t
  unfolding wait_loop writes_to
  wait_loop-writes zero port t = refl
  wait_loop-writes (suc n) port t =
      let status = inb device io_parallel1_status t in
      elim (Bool-cases (bit_and status.0 io_parallel_status_busy == 0)) [
        | inl wait ↦ rw wait (wait_loop-writes n port (delay status.1))
        | inr ready ↦ rw ready refl
      ]

  -- Each status read is followed by at most four reads, so that a character costs at most
  -- 5 * 12800 reads, whatever the printer answers.
  wait_loop-length : (n : ℕ) (t : Trace) → length (wait_loop n t) ≤ length t + 5 * n
  unfolding wait_loop
  wait_loop-length zero t = omega arith
  wait_loop-length (suc n) t =
      let status = inb device io_parallel1_status t in
      elim (Bool-cases (bit_and status.0 io_parallel_status_busy == 0)) [
        | inl wait ↦ rw wait (omega (arith, wait_loop-length n (delay status.1)))
        | inr ready ↦ rw ready (omega arith)
      ]

  -- What the port has been sent behind one character, and how many accesses that took.
  pub record IsSent (c : ℕ) (port port' : ParallelPort) : Type 0 where
    pub sent :
        writes_to io_parallel1_data port'.trace ≡ u8 c ∷ writes_to io_parallel1_data port.trace
    pub once : port'.initialized ≢ 0
    pub bounded : length port'.trace ≤ length port.trace + 64004

  initialize-length : (port : ParallelPort) → length (initialize port) ≤ length port.trace + 1
  initialize-length port = elim (Bool-cases (port.initialized == 0)) [
    | inl first ↦ rw first (omega arith)
    | inr again ↦ rw again (omega arith)
  ]

  initialize-writes :
      (port : ParallelPort)
      → writes_to io_parallel1_data (initialize port) ≡ writes_to io_parallel1_data port.trace
  unfolding writes_to
  initialize-writes port = elim (Bool-cases (port.initialized == 0)) [
    | inl first ↦ rw first refl
    | inr again ↦ rw again refl
  ]

  -- `parallel_port_putc` sends its character once, and makes at most 64004 accesses, whatever the
  -- printer at the port answers.
  pub parallel_port_putc-IsSent :
      (c color : ℕ) (port : ParallelPort) → IsSent c port (parallel_port_putc c color port)
  unfolding parallel_port_putc writes_to
  parallel_port_putc-IsSent c color port = record {
    sent =
        ap (λ rest. u8 c ∷ rest)
          (wait_loop-writes 12800 io_parallel1_data (initialize port) ∙ initialize-writes port);
    once = ground arith;
    bounded = omega (arith, wait_loop-length 12800 (initialize port), initialize-length port);
  }
