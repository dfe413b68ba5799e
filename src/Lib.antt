-- ===== src/Lib.antt =====
-- WeensyOSVM, a small operating system with virtual memory, modelled and verified: the page tables,
-- the physical pages, the processes of its kernel, and the C library that kernel and programs share.
--
-- The parts and how they interact. Physical memory is a function from addresses to bytes (Memory).
-- The kernel's state (State) is that memory with `pageinfo[]`, `processes[]`, `current`, `ticks`,
-- `__pagetable_owner__` of kernel.c, the register %cr3, and the results of the coming calls of
-- `keyboard_readc`. A kernel function is a command on this state: it returns a value and a state, it
-- panics (a failing `assert` or `panic`), or it stops (power-off, reboot, polling the keyboard for
-- ever, or a read outside an array, of which C does not say what follows). The arrays of kernel.c are
-- kept apart from the bytes of memory: the model assumes that no write through an address reaches them. The page tables call an allocator, for which kernel.c passes `pagetable_alloc`; the
-- theorems on page tables take any allocator with a stated contract. System calls use both. The devices,
-- the console and the programs have states of their own.
--
-- Files, and the code that they model:
--   X86       x86-64.h: page and entry macros (PAGENUMBER, PAGEINDEX, PTE_ADDR, PTE_FLAGS)
--   Memory    64-bit loads and stores; lib.c: memcpy, memmove, memset
--   State     kernel.h, kernel.c: proc, physical_pageinfo, the static variables
--   Paging    k-hardware.c: virtual_memory_map, lookup_l4pagetable, virtual_memory_lookup
--   Physical  kernel.c: pageinfo_init, assign_physical_page, get_free_addr, pagetable_alloc;
--             k-hardware.c: physical_memory_isreserved
--   Process   kernel.c: copy_pagetable, fork, exception, schedule, run, check_virtual_memory and its
--             parts; k-hardware.c: set_pagetable, check_keyboard
--   Setup     k-loader.c: program_load, program_load_segment; kernel.c: kernel, process_setup;
--             k-hardware.c: virtual_memory_init, process_init
--   Keymap, Keyboard
--             k-hardware.c: the key tables, keyboard_readc
--   Segments  k-hardware.c: segments_init, set_app_segment, set_sys_segment, set_gate; the descriptors
--             of x86-64.h
--   Boot      boot.c: boot, boot_readseg, boot_readsect, over a disk that is a parameter
--   CString   lib.c: strlen, strnlen, strcpy, strcmp, strchr
--   Rand      lib.c: rand, srand
--   Numbuf    lib.c: fill_numbuf
--   Printer   lib.c: printer_vprintf
--   Console   lib.c: console_putc, console_vprintf, string_putc, vsnprintf, console_clear
--   Devices   x86-64.h: inb, outb and the like; k-hardware.c: interrupt_init, timer_init (Timer),
--             pci_find_device, poweroff, reboot (Pci), parallel_port_putc (Parallel), log_vprintf,
--             error_vprintf and the report of panic (Log), console_show_cursor (Cursor)
--   Memshow   kernel.c: memshow_physical, memshow_virtual, memshow_virtual_animate (Animate),
--             memdump_physical, memdump_virtual, memdump_virtual_all (Dump)
--   Programs  p-allocator.c, p-fork.c, p-forkexit.c; process.c: app_printf, panic (Message)
-- The children of a module hold its further definitions and its proofs; Examples holds states at which
-- the theorems apply.
--
-- Numbers. Addresses, registers and entries are natural numbers; the wrap-around of 64-bit sums and of
-- 32-bit `int`s is written out as a remainder. An `int8_t` or `int` is its bit pattern, so -1 is 2^32 - 1
-- as an `int`. `%` arguments of a format are a stream of slots, since C does not define what a call with
-- too few arguments reads.
--
-- Devices. What a read of a port returns is a function of the accesses before it, a parameter; the
-- accesses are a list, the latest first. The two bytes that keyboard_readc reads are its arguments. The
-- programs are machines whose round is one pass of a loop of process_main: their system calls, their
-- stores and their messages are a list of events, and what a call returns is a function of them. The
-- theorems that join two parts put their states side by side: a program's request is the register of
-- the kernel's current process, and the selectors of process_init are looked up in the table of
-- segments_init.
--
-- Loops and fuel. The loops over pages, entries, slots and processes count their rounds down. The loop
-- of `schedule` runs over the keys that are read. The loops on strings have fuel, which the theorems ask
-- to exceed the string's length; `printer_vprintf` has fuel, and one more than the length of the format
-- is always enough; `fill_numbuf` has 64 rounds, enough for every 64-bit number in every base. The loop of
-- `memshow_virtual_animate` has 2 * NPROC + 1 - showing rounds, its own bound; the wait of
-- `parallel_port_putc` has the 12800 rounds of its counter.
--
-- Not modelled: the assembly of k-exception.S and bootstart.S (a return to user mode is the state in
-- which `run` ends), the inline assembly around processor instructions, the disk commands of boot.c (the
-- sector that they deliver is), the calls of the pictures and of the log inside `exception` and
-- `check_keyboard`, the page table that `check_keyboard` sets up for a soft reboot, the endless loops
-- behind a panic, the tools that run on the build host, and the linker scripts. `kernel` is modelled on
-- the kernel's state; the segments, the controllers and the console that it sets up too are modelled
-- apart. The kernel's accesses to memory are taken to be identity mapped, which
-- check_page_table_mappings asserts for its own pages.
pub mod Base
pub mod X86
pub mod Memory
pub mod Keymap
pub mod Keyboard
pub mod State
pub mod Paging
pub mod Physical
pub mod Process
pub mod Setup
pub mod Segments
pub mod Boot
pub mod CString
pub mod Rand
pub mod Numbuf
pub mod Printer
pub mod Console
pub mod Devices
pub mod Memshow
pub mod Programs
pub mod Examples
