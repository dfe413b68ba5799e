-- ===== src/Memshow/Shown.antt =====
-- The cells of the pictures, page by page.
use weensy_osvm.Base.{
  ℕ, zero, suc, ◌+◌, ◌*◌, ◌^◌, ◌≤◌, ◌<◌, ◌≡◌, ◌⊎◌, inl, inr, refl, ap, true, ltb, leb, some, List,
  [], ◌∷◌, Bool, Bool-cases, false, ◌&&◌, ◌||◌, ◌==◌, ◌-◌, ◌%◌, if◌then◌else◌, bit_and, get_or,
  all_below, all_below-lt, ==_self, arith,
}
use weensy_osvm.X86.{page_size, pte_addr, pte_u, has_flag}
use weensy_osvm.State.{PageInfo, Kernel}
use weensy_osvm.Paging.{VaMapping, virtual_memory_lookup, memsize_physical}
use weensy_osvm.Console.{Console}
use weensy_osvm.Memshow.{
  cpos, owner_color, memstate_colors, reverse_video, color_index, shown_owner, physical_color,
  console_printf, physical_loop, memshow_physical, physical_title, virtual_color, virtual_loop,
  virtual_title, string_slot, memshow_virtual,
}
use weensy_osvm.Memshow.Draw.{place, draw_loop, draw_loop-cells}

physical_loop-draw :
    (pageinfo : ℕ → PageInfo) (n pn : ℕ) (con : Console)
    → physical_loop pageinfo n pn con ≡ draw_loop 1 (λ p. physical_color (pageinfo p)) n pn con
unfolding physical_loop draw_loop
physical_loop-draw pageinfo zero pn con = refl
physical_loop-draw pageinfo (suc n) pn con = physical_loop-draw pageinfo n (pn + 1) _

-- The kernel, reserved memory, or a slot of `processes`, where slot 0 stands for a free page.
abbrev pub IsOwner : PageInfo → Type 0
IsOwner info = (info.owner < 16) ⊎ ((0xFE ≤ info.owner) × (info.owner < 0x100))

-- `memshow_physical` shows each of the 512 pages at its own cell, by the letter of its owner or of a
-- free page where nothing refers to it, in a darker colour where it is shared; and the index of the
-- letter lies within the table of the 18 letters for every owner that a page can have.
pub memshow_physical-shown :
    (pageinfo : ℕ → PageInfo) (con : Console) (pn : ℕ)
    → pn < 512
    → IsOwner (pageinfo pn)
    → ((memshow_physical pageinfo con).cells (place 1 pn) ≡ physical_color (pageinfo pn))
      × (color_index (shown_owner (pageinfo pn)) < 18)
unfolding memshow_physical
memshow_physical-shown pageinfo con pn h o =
    let start = console_printf (cpos 0 32) 0x0F00 physical_title [] con in
    let drawn =
      draw_loop-cells 1 (λ p. physical_color (pageinfo p)) 512 0 start pn (omega arith)
        (omega arith) (omega arith) in
    (rw (physical_loop-draw pageinfo 512 0 start) (ground (arith, drawn)), ground arith)

virtual_loop-draw :
    (k : Kernel) (pagetable : ℕ) (color : ℕ → ℕ) (n pn : ℕ) (con : Console)
    → ((i : ℕ)
        → pn ≤ i
        → i < pn + n
        → virtual_color k.pageinfo (virtual_memory_lookup k.mem pagetable (i * page_size))
          ≡ some (color i))
    → virtual_loop k pagetable n pn con ≡ some (draw_loop 11 color n pn con)
unfolding virtual_loop draw_loop
virtual_loop-draw k pagetable color zero pn con h = refl
virtual_loop-draw k pagetable color (suc n) pn con h =
    rw (h pn (omega arith) (omega arith))
      (virtual_loop-draw k pagetable color n (pn + 1) _ (λ i l r. h i (omega arith) (omega arith)))

-- The letter of a page: '.' where nothing refers to it or its owner is 0, K for the kernel, R for
-- reserved memory, and the digit of a process, as in base 16.
abbrev pub letter_of : (owner : ℕ) → ℕ
letter_of owner =
    if owner == 0xFE
    then b'K'
    else if owner == 0xFF
    then b'R'
    else if owner == 0
    then b'.'
    else if leb owner 9
    then b'0' + owner
    else b'A' + (owner - 10)

-- The colour of the letter; those of the processes repeat after five.
abbrev pub hue_of : (owner : ℕ) → ℕ
hue_of owner =
    if owner == 0xFE
    then 0xD
    else if owner == 0xFF || owner == 0
    then 0x7
    else if owner % 5 == 1
    then 0xC
    else if owner % 5 == 2
    then 0xA
    else if owner % 5 == 3
    then 0x9
    else if owner % 5 == 4
    then 0xE
    else 0xF

-- A cell of a page of this owner: the hue is that of the letter, or of its background where user code
-- can access the page, and loses its brightness (8) where the page is shared.
unfoldable pub cell_of : (owner : ℕ) (user shared : Bool) → ℕ
cell_of owner user shared =
    (if shared then hue_of owner % 8 else hue_of owner) * (if user then 0x1000 else 0x100)
    + letter_of owner

-- What the cell of a page with the mapping `vam` shows: a blank where it is unmapped.
abbrev pub shows : (pageinfo : ℕ → PageInfo) → VaMapping → ℕ
shows pageinfo vam =
    if leb (2 ^ 31) vam.pn
    then b' '
    else cell_of (if (pageinfo vam.pn).refcount == 0 then 0 else (pageinfo vam.pn).owner)
        (has_flag vam.perm pte_u)
        (ltb 1 (pageinfo vam.pn).refcount && ltb (pageinfo vam.pn).refcount 128)

abbrev is_owner : ℕ → Bool
is_owner o = ltb o 16 || (leb 0xFE o && ltb o 0x100)

abbrev color_of : (owner : ℕ) → ℕ
color_of owner = get_or memstate_colors (color_index owner) 0

abbrev agrees : (owner : ℕ) → Bool
agrees o =
    if is_owner o
    then cell_of o false false == color_of o
      && cell_of o false true == bit_and (color_of o) 0x77FF
      && cell_of o true false == reverse_video (color_of o)
      && cell_of o true true == bit_and (reverse_video (color_of o)) 0x77FF
    else true

all_agree : all_below 256 agrees ≡ true
unfolding cell_of
all_agree = refl

cell_of-color :
    (o : ℕ) (user shared : Bool)
    → is_owner o ≡ true
    → (if shared
        then bit_and (if user then reverse_video (color_of o) else color_of o) 0x77FF
        else if user
        then reverse_video (color_of o)
        else color_of o)
      ≡ cell_of o user shared
cell_of-color o user shared valid =
    let agree : agrees o ≡ true = all_below-lt 256 agrees o all_agree (ground arith) in
    ground (arith, agree)

virtual_color-shows :
    (pageinfo : ℕ → PageInfo) (vam : VaMapping)
    → IsOwner (pageinfo vam.pn)
    → (2 ^ 31 ≤ vam.pn) ⊎ (vam.pa < memsize_physical)
    → virtual_color pageinfo vam ≡ some (shows pageinfo vam)
unfolding virtual_color owner_color
virtual_color-shows pageinfo vam owned within =
    let info = pageinfo vam.pn in
    elim (Bool-cases (leb (2 ^ 31) vam.pn)) [
      | inl unmapped ↦ rw unmapped refl
      | inr mapped ↦
          let exists : ltb vam.pa memsize_physical ≡ true = ground arith in
          let valid : is_owner (shown_owner info) ≡ true = ground arith in
          rw (mapped, exists)
            (ap some (
              cell_of-color (shown_owner info) (has_flag vam.perm pte_u)
                (ltb 1 info.refcount && ltb info.refcount 128) valid))
    ]

-- `memshow_virtual` of a page-aligned page table that maps the 3 MB of the processes' addresses only
-- to existing physical pages, while every page's owner is the kernel, reserved, or a slot, fails no
-- assertion, and shows each of the 768 pages at its own cell: a blank for an unmapped page, and
-- otherwise the letter of the owner of the page it is mapped to in the owner's colour, as background
-- where user code can access it, and darker where the page is shared.
pub memshow_virtual-shown :
    (k : Kernel) (pagetable : ℕ) (name : List ℕ) (con : Console)
    → pte_addr pagetable ≡ pagetable
    → ((p : ℕ) → IsOwner (k.pageinfo p))
    → ((i : ℕ)
        → i < 768
        → (2 ^ 31 ≤ (virtual_memory_lookup k.mem pagetable (i * page_size)).pn)
          ⊎ ((virtual_memory_lookup k.mem pagetable (i * page_size)).pa < memsize_physical))
    → (con' : Console) × (memshow_virtual k pagetable name con ≡ some con')
      × ((i : ℕ)
          → i < 768
          → con'.cells (place 11 i)
            ≡ shows k.pageinfo (virtual_memory_lookup k.mem pagetable (i * page_size)))
unfolding memshow_virtual
memshow_virtual-shown k pagetable name con aligned owned within =
    let start = console_printf (cpos 10 26) 0x0F00 virtual_title (string_slot name ∷ []) con in
    let color =
      λ (i : ℕ). shows k.pageinfo (virtual_memory_lookup k.mem pagetable (i * page_size)) in
    let colored = λ (i : ℕ) (l : i < 768).
      virtual_color-shows k.pageinfo (virtual_memory_lookup k.mem pagetable (i * page_size))
        (owned _) (within i l) in
    (
      draw_loop 11 color 768 0 start,
      rw (aligned, ==_self pagetable)
          (virtual_loop-draw k pagetable color 768 0 start (λ i l r. colored i (omega arith))),
      λ i l.
          let drawn = draw_loop-cells 11 color 768 0 start i (omega arith) (omega arith) l in
          ground (arith, drawn),
    )
