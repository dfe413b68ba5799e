-- ===== src/Memshow.antt =====
-- kernel.c: the pictures of physical and virtual memory on the console, and their dumps to the log.
-- A picture is a function on the console; a failed assertion gives `none`.
pub mod Draw
pub mod Shown
pub mod Animate
pub mod Dump
use weensy_osvm.Base.{
  ℕ, zero, suc, ◌+◌, ◌-◌, ◌*◌, ◌/◌, ◌%◌, ◌^◌, Bool, ◌&&◌, ◌==◌, ltb, leb, if◌then◌else◌, bit_and,
  bit_or, Option, none, some, List, [], ◌∷◌, get_or,
}
use weensy_osvm.X86.{page_size, page_number, pte_addr, pte_u, has_flag}
use weensy_osvm.State.{PageInfo, Kernel, update}
use weensy_osvm.Paging.{virtual_memory_lookup, memsize_physical, VaMapping}
use weensy_osvm.Physical.{po_free}
use weensy_osvm.Process.{memsize_virtual}
use weensy_osvm.Printer.{Slot}
use weensy_osvm.Console.{Console}
use weensy_osvm.Console.Text.{console_vprintf}

abbrev pub cpos : (row col : ℕ) → ℕ
cpos row col = row * 80 + col

-- The letters of the owners from PO_KERNEL on: the kernel, reserved, free, and the processes.
abbrev pub memstate_colors : List ℕ
memstate_colors =
    bit_or b'K' 0x0D00
    ∷ bit_or b'R' 0x0700
    ∷ bit_or b'.' 0x0700
    ∷ bit_or b'1' 0x0C00
    ∷ bit_or b'2' 0x0A00
    ∷ bit_or b'3' 0x0900
    ∷ bit_or b'4' 0x0E00
    ∷ bit_or b'5' 0x0F00
    ∷ bit_or b'6' 0x0C00
    ∷ bit_or b'7' 0x0A00
    ∷ bit_or b'8' 0x0900
    ∷ bit_or b'9' 0x0E00
    ∷ bit_or b'A' 0x0F00
    ∷ bit_or b'B' 0x0C00
    ∷ bit_or b'C' 0x0A00
    ∷ bit_or b'D' 0x0900
    ∷ bit_or b'E' 0x0E00
    ∷ bit_or b'F' 0x0F00
    ∷ []

-- `owner - PO_KERNEL`, for an owner from PO_KERNEL = -2 on.
abbrev pub color_index : (owner : ℕ) → ℕ
color_index owner = (owner + 2) % 2 ^ 8

-- `refcount > 1`, an `int8_t`
abbrev pub is_shared : PageInfo → Bool
is_shared info = ltb 1 info.refcount && ltb info.refcount 128

abbrev pub shown_owner : PageInfo → ℕ
shown_owner info = if info.refcount == 0 then po_free else info.owner

unfoldable pub owner_color : PageInfo → ℕ
owner_color info = get_or memstate_colors (color_index (shown_owner info)) 0

abbrev pub darken : PageInfo → ℕ → ℕ
darken info color = if is_shared info then bit_and color 0x77FF else color

unfoldable pub physical_color : PageInfo → ℕ
unfolding owner_color
physical_color info = darken info (owner_color info)

abbrev pub no_slot : Slot
no_slot = record { value = 0; string = [] }

abbrev pub args_of : List Slot → ℕ → Slot
args_of slots i = get_or slots i no_slot

abbrev pub number_slot : ℕ → Slot
number_slot n = record { value = n; string = [] }

abbrev pub or_same : Option Console → Console → Console
or_same none con = con
or_same (some con') con = con'

unfoldable pub console_printf :
    (position color : ℕ) (format : List ℕ) (args : List Slot) → Console → Console
console_printf position color format args con =
    or_same (console_vprintf position color format (args_of args) con) con

-- "0x%06X "
abbrev pub address_format : List ℕ
address_format = b'0' ∷ b'x' ∷ b'%' ∷ b'0' ∷ b'6' ∷ b'X' ∷ b' ' ∷ []

-- The address at the start of a row of 64 pages.
abbrev pub label : (row pn address : ℕ) → Console → Console
label row pn address con =
    if pn % 64 == 0
    then console_printf (cpos (row + pn / 64) 3) 0x0F00 address_format (number_slot address ∷ [])
        con
    else con

abbrev pub set_cell : (i color : ℕ) → Console → Console
set_cell i color con = record con { cells = update con.cells i color }

-- "PHYSICAL MEMORY"
abbrev pub physical_title : List ℕ
physical_title =
    b'P' ∷ b'H' ∷ b'Y' ∷ b'S' ∷ b'I' ∷ b'C' ∷ b'A' ∷ b'L' ∷ b' ' ∷ b'M' ∷ b'E' ∷ b'M' ∷ b'O' ∷ b'R'
    ∷ b'Y' ∷ []

-- The loop of `memshow_physical` at the page `pn`, with `n` pages left.
unfoldable pub physical_loop : (pageinfo : ℕ → PageInfo) (n pn : ℕ) → Console → Console
physical_loop pageinfo zero pn con = con
physical_loop pageinfo (suc n) pn con = physical_loop pageinfo n (pn + 1) (
    set_cell (cpos (1 + pn / 64) (12 + pn % 64)) (physical_color (pageinfo pn))
      (label 1 pn (pn * 2 ^ 12) con))

unfoldable pub memshow_physical : (ℕ → PageInfo) → Console → Console
memshow_physical pageinfo con =
    physical_loop pageinfo (memsize_physical / page_size) 0
      (console_printf (cpos 0 32) 0x0F00 physical_title [] con)

-- Reverse video: the colours of the letter and of its background change places.
abbrev pub reverse_video : ℕ → ℕ
reverse_video color =
    bit_or (bit_or (bit_and color 0x0F00 * 2 ^ 4) (bit_and color 0xF000 / 2 ^ 4))
      (bit_and color 0x00FF)

-- The colour of a virtual page; the assertion on its physical address may fail.
unfoldable pub virtual_color : (pageinfo : ℕ → PageInfo) → VaMapping → Option ℕ
unfolding owner_color
virtual_color pageinfo vam =
    let info = pageinfo vam.pn in
    let color = owner_color info in
    if leb (2 ^ 31) vam.pn
    then some b' '
    else if ltb vam.pa memsize_physical
    then some (darken info (if has_flag vam.perm pte_u then reverse_video color else color))
    else none

abbrev pub and_draw : Option ℕ → (ℕ → Option Console) → Option Console
and_draw none next = none
and_draw (some color) next = next color

-- The loop of `memshow_virtual` at the page `pn`, with `n` pages left.
unfoldable pub virtual_loop : (k : Kernel) (pagetable n pn : ℕ) → Console → Option Console
unfolding page_number
virtual_loop k pagetable zero pn con = some con
virtual_loop k pagetable (suc n) pn con =
    and_draw (virtual_color k.pageinfo (virtual_memory_lookup k.mem pagetable (pn * page_size)))
      (λ color.
        virtual_loop k pagetable n (pn + 1)
          (set_cell (cpos (11 + pn / 64) (12 + pn % 64)) color (label 11 pn (pn * page_size) con)))

-- "VIRTUAL ADDRESS SPACE FOR %s"
abbrev pub virtual_title : List ℕ
virtual_title =
    b'V' ∷ b'I' ∷ b'R' ∷ b'T' ∷ b'U' ∷ b'A' ∷ b'L' ∷ b' ' ∷ b'A' ∷ b'D' ∷ b'D' ∷ b'R' ∷ b'E' ∷ b'S'
    ∷ b'S' ∷ b' ' ∷ b'S' ∷ b'P' ∷ b'A' ∷ b'C' ∷ b'E' ∷ b' ' ∷ b'F' ∷ b'O' ∷ b'R' ∷ b' ' ∷ b'%'
    ∷ b's' ∷ []

abbrev pub string_slot : List ℕ → Slot
string_slot text = record { value = 0; string = text }

unfoldable pub memshow_virtual :
    (k : Kernel) (pagetable : ℕ) (name : List ℕ) → Console → Option Console
memshow_virtual k pagetable name con =
    if pte_addr pagetable == pagetable
    then virtual_loop k pagetable (memsize_virtual / page_size) 0
        (console_printf (cpos 10 26) 0x0F00 virtual_title (string_slot name ∷ []) con)
    else none
