-- ===== src/Setup/Isolation.antt =====
-- kernel.c: what user code can access in the page tables behind the first step of `kernel`.
use weensy_osvm.Base.{ℕ, ◌+◌, ◌^◌, ◌≤◌, ◌<◌, ◌≡◌, ◌⊎◌, true}
use weensy_osvm.X86.{page_number, pte_u, has_flag}
use weensy_osvm.State.{Kernel}
use weensy_osvm.State.Returns
use weensy_osvm.State.Returns.{Returns}
use weensy_osvm.State.Allows.{Allows}
use weensy_osvm.Paging.Space.{IsSpace}
use weensy_osvm.Paging.Write.{lookup}

-- User code can access no address but those of the console's page.
abbrev pub OpensOnly : (console : ℕ) (k : Kernel) (pt : ℕ) → Type 0
OpensOnly console k pt =
    (va : ℕ)
    → va < 2 ^ 48
    → has_flag (lookup k pt va).perm pte_u ≡ true
    → (console ≤ va) × (va < console + 4096)

-- The kernel's memory is mapped to itself, present and writable for the kernel, and open to user
-- code in the console's page only; every other address is mapped as before.
pub record IsIsolated (console pt : ℕ) (k k' : Kernel) : Type 0 where
  pub space : IsSpace k' pt
  pub kernel_only :
      (va : ℕ)
      → va < 0x100000
      → (va < console) ⊎ (console + 4096 ≤ va)
      → lookup k' pt va ≡ record { pn = page_number va; pa = va; perm = 3 }
  pub shared :
      (va : ℕ)
      → console ≤ va
      → va < console + 4096
      → lookup k' pt va ≡ record { pn = page_number va; pa = va; perm = 7 }
  pub above : (va : ℕ) → 0x100000 ≤ va → va < 2 ^ 48 → lookup k' pt va ≡ lookup k pt va
