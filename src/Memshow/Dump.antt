-- ===== src/Memshow/Dump.antt =====
-- `memdump_physical`, `memdump_virtual` and `memdump_virtual_all`: the same facts, as text in the log.
use weensy_osvm.Base.{
  ℕ, zero, suc, ◌+◌, ◌-◌, ◌*◌, ◌/◌, ◌^◌, ◌≡◌, refl, sym, ap, ◌∙◌, not, ◌==◌, leb, if◌then◌else◌,
  Option, none, some, List, [], ◌∷◌, ◌++◌,
}
use mathlib.Core.List.{reverse_aux}
use weensy_osvm.X86.{page_size, pte_addr}
use weensy_osvm.State.{PageInfo, Kernel}
use weensy_osvm.Paging.{virtual_memory_lookup, VaMapping, memsize_physical}
use weensy_osvm.Process.{nproc, memsize_virtual}
use weensy_osvm.Process.Fork.{is_p_free}
use weensy_osvm.Printer.{Slot}
use weensy_osvm.Printer.Output.{output}
use weensy_osvm.Devices.{Device, writes_to}
use weensy_osvm.Devices.Parallel.{ParallelPort, io_parallel1_data}
use weensy_osvm.Devices.Log.{log_vprintf, log_vprintf-sent, bytes}
use weensy_osvm.Memshow.{args_of, number_slot, string_slot}
use weensy_osvm.Memshow.Animate.{process_name}

abbrev or_same_port : Option ParallelPort → ParallelPort → ParallelPort
or_same_port none port = port
or_same_port (some port') port = port'

-- "PM_DUMP %u "
abbrev pm_dump : List ℕ
pm_dump = b'P' ∷ b'M' ∷ b'_' ∷ b'D' ∷ b'U' ∷ b'M' ∷ b'P' ∷ b' ' ∷ b'%' ∷ b'u' ∷ b' ' ∷ []

-- "%u %u "
abbrev two_numbers : List ℕ
two_numbers = b'%' ∷ b'u' ∷ b' ' ∷ b'%' ∷ b'u' ∷ b' ' ∷ []

-- "VM_DUMP %s %u "
abbrev vm_dump : List ℕ
vm_dump =
    b'V' ∷ b'M' ∷ b'_' ∷ b'D' ∷ b'U' ∷ b'M' ∷ b'P' ∷ b' ' ∷ b'%' ∷ b's' ∷ b' ' ∷ b'%' ∷ b'u' ∷ b' '
    ∷ []

-- "0 0 0 "
abbrev no_page : List ℕ
no_page = b'0' ∷ b' ' ∷ b'0' ∷ b' ' ∷ b'0' ∷ b' ' ∷ []

-- "%u %u %u "
abbrev three_numbers : List ℕ
three_numbers = b'%' ∷ b'u' ∷ b' ' ∷ two_numbers

-- The `int8_t` reference count as the argument of `%u`: its sign is extended to an `int`.
abbrev as_unsigned : ℕ → ℕ
as_unsigned n = if leb 128 n then n + (2 ^ 32 - 2 ^ 8) else n

reverse_aux-append :
    (xs ys r : List ℕ) → reverse_aux (xs ++ ys) r ≡ reverse_aux ys (reverse_aux xs r)
reverse_aux-append [] ys r = refl
reverse_aux-append (x ∷ xs) ys r = reverse_aux-append xs ys (x ∷ r)

module _ (device : Device) where
  unfoldable pub log_printf : (format : List ℕ) (args : List Slot) → ParallelPort → ParallelPort
  log_printf format args port = or_same_port (log_vprintf device format (args_of args) port) port

  abbrev log_page : PageInfo → ParallelPort → ParallelPort
  log_page info =
      log_printf two_numbers (number_slot info.owner ∷ number_slot (as_unsigned info.refcount) ∷ [])

  -- The loop of `memdump_physical` at the page `pn`, with `n` pages left.
  unfoldable pub dump_pages : (pageinfo : ℕ → PageInfo) (n pn : ℕ) → ParallelPort → ParallelPort
  dump_pages pageinfo zero pn port = port
  dump_pages pageinfo (suc n) pn port = dump_pages pageinfo n (pn + 1) (log_page (pageinfo pn) port)

  unfoldable pub memdump_physical : Kernel → ParallelPort → ParallelPort
  unfolding dump_pages
  memdump_physical k port = log_printf (b'\n' ∷ []) [] (
      dump_pages k.pageinfo (memsize_physical / page_size) 0
        (log_printf pm_dump (number_slot k.ticks ∷ []) port))

  unfoldable pub dump_mapping : Kernel → VaMapping → ParallelPort → ParallelPort
  unfolding log_printf
  dump_mapping k vam port =
      if leb (2 ^ 31) vam.pn
      then log_printf no_page [] port
      else log_printf three_numbers
          (number_slot (k.pageinfo vam.pn).owner
            ∷ number_slot (k.pageinfo vam.pn).refcount
            ∷ number_slot vam.perm
            ∷ [])
          port

  -- The loop of `memdump_virtual` at the page `pn`, with `n` pages left.
  unfoldable pub dump_mappings : (k : Kernel) (pagetable n pn : ℕ) → ParallelPort → ParallelPort
  unfolding dump_mapping
  dump_mappings k pagetable zero pn port = port
  dump_mappings k pagetable (suc n) pn port =
      dump_mappings k pagetable n (pn + 1)
        (dump_mapping k (virtual_memory_lookup k.mem pagetable (pn * page_size)) port)

  -- The assertion on the page table comes behind the first line; it may fail.
  unfoldable pub memdump_virtual :
      (k : Kernel) (pagetable : ℕ) (name : List ℕ) → ParallelPort → Option ParallelPort
  unfolding dump_mappings
  memdump_virtual k pagetable name port =
      let started = log_printf vm_dump (string_slot name ∷ number_slot k.ticks ∷ []) port in
      if pte_addr pagetable == pagetable
      then some (
          log_printf (b'\n' ∷ []) []
            (dump_mappings k pagetable (memsize_virtual / page_size) 0 started))
      else none

  abbrev and_dump : Option ParallelPort → (ParallelPort → Option ParallelPort) → Option ParallelPort
  and_dump none next = none
  and_dump (some port) next = next port

  -- The loop of `memdump_virtual_all` at the slot `i`, with `n` slots left.
  unfoldable pub dump_processes : (k : Kernel) (n i : ℕ) → ParallelPort → Option ParallelPort
  unfolding memdump_virtual
  dump_processes k zero i port = some port
  dump_processes k (suc n) i port =
      and_dump
        (if not (is_p_free (k.processes i).p_state)
          then memdump_virtual k (k.processes i).p_pagetable (process_name i) port
          else some port)
        (dump_processes k n (i + 1))

  abbrev pub memdump_virtual_all : Kernel → ParallelPort → Option ParallelPort
  memdump_virtual_all k port = dump_processes k nproc 0 port

  log_printf-writes :
      (format : List ℕ) (args : List Slot) (port : ParallelPort)
      → writes_to io_parallel1_data (log_printf format args port).trace
        ≡ reverse_aux
            (bytes device (output (args_of args) 0 format))
            (writes_to io_parallel1_data port.trace)
  unfolding log_printf
  log_printf-writes format args port =
      let (port', logged, sent) = log_vprintf-sent device format (args_of args) port in
      rw logged sent

  -- What one page adds to the log.
  abbrev pub page_text : PageInfo → List ℕ
  page_text info = bytes device (
      output (args_of (number_slot info.owner ∷ number_slot (as_unsigned info.refcount) ∷ [])) 0
        two_numbers)

  unfoldable pub pages_text : (pageinfo : ℕ → PageInfo) (n pn : ℕ) → List ℕ
  pages_text pageinfo zero pn = []
  pages_text pageinfo (suc n) pn = page_text (pageinfo pn) ++ pages_text pageinfo n (pn + 1)

  dump_pages-writes :
      (pageinfo : ℕ → PageInfo) (n pn : ℕ) (port : ParallelPort)
      → writes_to io_parallel1_data (dump_pages pageinfo n pn port).trace
        ≡ reverse_aux (pages_text pageinfo n pn) (writes_to io_parallel1_data port.trace)
  unfolding dump_pages pages_text
  dump_pages-writes pageinfo zero pn port = refl
  dump_pages-writes pageinfo (suc n) pn port =
      dump_pages-writes pageinfo n (pn + 1) (log_page (pageinfo pn) port)
      ∙ (ap (reverse_aux (pages_text pageinfo n (pn + 1))) (
            log_printf-writes two_numbers
              (number_slot (pageinfo pn).owner
                ∷ number_slot (as_unsigned (pageinfo pn).refcount)
                ∷ [])
              port)
          ∙ sym (
              reverse_aux-append (page_text (pageinfo pn)) (pages_text pageinfo n (pn + 1))
                (writes_to io_parallel1_data port.trace)))

  -- `memdump_physical` sends to the log, behind what was sent before, the line of its title and the
  -- ticks, then the owner and the count of each of the 512 pages in their order, and a newline.
  pub memdump_physical-written :
      (k : Kernel) (port : ParallelPort)
      → writes_to io_parallel1_data (memdump_physical k port).trace
        ≡ reverse_aux
            (bytes device (output (args_of (number_slot k.ticks ∷ [])) 0 pm_dump)
              ++ pages_text k.pageinfo 512 0
              ++ bytes device (output (args_of []) 0 (b'\n' ∷ [])))
            (writes_to io_parallel1_data port.trace)
  unfolding memdump_physical
  memdump_physical-written k port =
      let title = bytes device (output (args_of (number_slot k.ticks ∷ [])) 0 pm_dump) in
      let newline = bytes device (output (args_of []) 0 (b'\n' ∷ [])) in
      let pages = pages_text k.pageinfo 512 0 in
      let sent = writes_to io_parallel1_data port.trace in
      let started = log_printf pm_dump (number_slot k.ticks ∷ []) port in
      rw
        (
          log_printf-writes (b'\n' ∷ []) [] (dump_pages k.pageinfo 512 0 started),
          dump_pages-writes k.pageinfo 512 0 started,
          log_printf-writes pm_dump (number_slot k.ticks ∷ []) port,
          reverse_aux-append (title ++ pages) newline sent,
          reverse_aux-append title pages sent,
        )
        refl
