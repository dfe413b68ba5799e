-- ===== src/Devices/Log.antt =====
-- k-hardware.c: `log_vprintf` and `error_vprintf`: `printer_vprintf` on the parallel port, and on
-- the console too; and the report of `panic`.
use weensy_osvm.Base.{
  ℕ, suc, ◌*◌, ◌≡◌, refl, ap, ◌∙◌, Option, none, some, List, [], ◌∷◌, ◌++◌, length, map, ◌%◌, ◌!=◌,
  if◌then◌else◌, inl, inr, Bool-cases,
}
use mathlib.Core.List.{reverse_aux}
use weensy_osvm.X86.{u8}
use weensy_osvm.Printer.{Slot}
use weensy_osvm.Printer.Emit.{printer_vprintf}
use weensy_osvm.Printer.Output.{Cell, output, play, printer_vprintf-play}
use weensy_osvm.Console.{Console, console_putc, start_cursor}
use weensy_osvm.Console.Text.{console_vprintf}
use weensy_osvm.Devices.{Device, writes_to}
use weensy_osvm.Devices.Parallel.{
  ParallelPort, parallel_port_putc, parallel_port_putc-IsSent, io_parallel1_data,
}

-- The console and the port behind it, or neither where the fuel of the format does not suffice.
abbrev pub both : {A B : Type 0} → Option A → Option B → Option (A × B)
both none b = none
both (some a) none = none
both (some a) (some b) = some (a, b)

module _ (device : Device) where
  unfoldable pub log_vprintf :
      (format : List ℕ) (args : ℕ → Slot) → ParallelPort → Option ParallelPort
  log_vprintf format args port =
      printer_vprintf (parallel_port_putc device) (suc (length format)) args 0 0 format port

  -- The result is the console, with its cursor, and the port.
  unfoldable pub error_vprintf :
      (cpos color : ℕ) (format : List ℕ) (args : ℕ → Slot)
      → Console
      → ParallelPort
      → Option (Console × ParallelPort)
  error_vprintf cpos color format args con port =
      both (console_vprintf cpos color format args con) (log_vprintf format args port)

  abbrev pub bytes : List Cell → List ℕ
  bytes cells = map (λ cell. u8 cell.0) cells

  play-writes :
      (cells : List Cell) (port : ParallelPort)
      → writes_to io_parallel1_data (play (parallel_port_putc device) cells port).trace
        ≡ reverse_aux (bytes cells) (writes_to io_parallel1_data port.trace)
  unfolding play
  play-writes [] port = refl
  play-writes ((c, color) ∷ rest) port =
      play-writes rest (parallel_port_putc device c color port)
      ∙ ap (reverse_aux (bytes rest)) (parallel_port_putc-IsSent device c color port).sent

  -- `log_vprintf` ends for every format and has sent to the port, behind what was sent before, the
  -- bytes that the format prints, in their order; `writes_to` lists the latest first.
  pub log_vprintf-sent :
      (format : List ℕ) (args : ℕ → Slot) (port : ParallelPort)
      → (port' : ParallelPort) × (log_vprintf format args port ≡ some port')
        × (writes_to io_parallel1_data port'.trace
            ≡ reverse_aux (bytes (output args 0 format)) (writes_to io_parallel1_data port.trace))
  unfolding log_vprintf
  log_vprintf-sent format args port =
      let cells = output args 0 format in
      (
        play (parallel_port_putc device) cells port,
        printer_vprintf-play (parallel_port_putc device) args 0 format port,
        play-writes cells port,
      )

  -- `error_vprintf` ends for every format: the console has what `console_vprintf` prints there, and
  -- the log has the bytes that the format prints.
  pub error_vprintf-both :
      (cpos color : ℕ) (format : List ℕ) (args : ℕ → Slot) (con : Console) (port : ParallelPort)
      → (con' : Console) × (port' : ParallelPort) × (error_vprintf cpos color format args con port
          ≡ some (con', port'))
        × (con'
            ≡ play console_putc
                (output args color format)
                (record con { cursor = start_cursor cpos }))
        × (writes_to io_parallel1_data port'.trace
            ≡ reverse_aux (bytes (output args 0 format)) (writes_to io_parallel1_data port.trace))
  unfolding error_vprintf console_vprintf
  error_vprintf-both cpos color format args con port =
      let (port', logged, sent) = log_vprintf-sent format args port in
      let start : Console = record con { cursor = start_cursor cpos } in
      (
        play console_putc (output args color format) start,
        port',
        rw (printer_vprintf-play console_putc args color format start, logged) refl,
        refl,
        sent,
      )

abbrev and_report :
    Option (Console × ParallelPort)
    → (Console → ParallelPort → Option (Console × ParallelPort))
    → Option (Console × ParallelPort)
and_report none next = none
and_report (some (con, port)) next = next con port

-- "PANIC"
abbrev panic_text : List ℕ
panic_text = b'P' ∷ b'A' ∷ b'N' ∷ b'I' ∷ b'C' ∷ []

abbrev no_arguments : ℕ → Slot
no_arguments i = record { value = 0; string = [] }

module _ (device : Device) where
  -- `if (CCOL(cpos)) error_printf(cpos, 0xC000, "\n");`
  unfoldable pub end_report : Console → ParallelPort → Option (Console × ParallelPort)
  end_report con port =
      if con.cursor % 80 != 0
      then error_vprintf device con.cursor 0xC000 (b'\n' ∷ []) no_arguments con port
      else some (con, port)

  -- `panic` up to `fail`, with its format and arguments, if it has a format.
  unfoldable pub panic_report :
      Option (List ℕ × (ℕ → Slot)) → Console → ParallelPort → Option (Console × ParallelPort)
  unfolding end_report
  panic_report none con port =
      error_vprintf device (23 * 80) 0xC000 panic_text no_arguments con port
  panic_report (some (format, args)) con port =
      and_report
        (error_vprintf device (23 * 80) 0xC000 (panic_text ++ (b':' ∷ b' ' ∷ [])) no_arguments con
          port)
        (λ con1 port1.
          and_report (error_vprintf device con1.cursor 0xC000 format args con1 port1) end_report)

  end_report-ends :
      (con : Console) (port : ParallelPort)
      → (r : Console × ParallelPort) × (end_report con port ≡ some r)
  unfolding end_report
  end_report-ends con port = elim (Bool-cases (con.cursor % 80 != 0)) [
    | inl inside ↦
        let (con', port', e, _, _) =
          error_vprintf-both device con.cursor 0xC000 (b'\n' ∷ []) no_arguments con port in
        ((con', port'), rw inside e)
    | inr at_start ↦ ((con, port), rw at_start refl)
  ]

  -- `panic` prints its message and gets to `fail`, whatever the message and its arguments.
  pub panic_report-ends :
      (message : Option (List ℕ × (ℕ → Slot))) (con : Console) (port : ParallelPort)
      → (r : Console × ParallelPort) × (panic_report message con port ≡ some r)
  unfolding panic_report
  panic_report-ends none con port =
      let (con', port', e, _, _) =
        error_vprintf-both device (23 * 80) 0xC000 panic_text no_arguments con port in
      ((con', port'), e)
  panic_report-ends (some (format, args)) con port =
      let (con1, port1, e1, _, _) =
        error_vprintf-both device (23 * 80) 0xC000 (panic_text ++ (b':' ∷ b' ' ∷ [])) no_arguments
          con port in
      let (con2, port2, e2, _, _) =
        error_vprintf-both device con1.cursor 0xC000 format args con1 port1 in
      let (r, e3) = end_report-ends con2 port2 in (r, rw (e1, e2) e3)
