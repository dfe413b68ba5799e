-- ===== src/State.antt =====
-- The kernel's state: physical memory, the static variables of kernel.c and k-hardware.c, the
-- register %cr3, and what the coming calls of `keyboard_readc` return, with the commands that act
-- on it. An `int8_t` is kept as its bit pattern below 2 ^ 8. Arrays are
-- functions of the index; where an index may lie outside the array, the code that uses it says so.
-- `processes` and `pageinfo` are kept apart from the bytes of memory: no write of the kernel or of
-- user code through an address reaches them.
pub mod Returns
pub mod Allows
pub mod Keeps
use weensy_osvm.Base.{ℕ, ◌-◌, ◌^◌, List, Bool, true, false, ◌==◌, if◌then◌else◌}
use weensy_osvm.Memory.{Mem, load64, store64, memset}

-- `procstate_t`
pub data ProcState : Type 0 where
  p_free p_runnable p_blocked p_broken : ProcState

-- `x86_64_registers`, less its padding
pub record Registers : Type 0 where
  pub reg_rax : ℕ
  pub reg_rcx : ℕ
  pub reg_rdx : ℕ
  pub reg_rbx : ℕ
  pub reg_rbp : ℕ
  pub reg_rsi : ℕ
  pub reg_rdi : ℕ
  pub reg_r8 : ℕ
  pub reg_r9 : ℕ
  pub reg_r10 : ℕ
  pub reg_r11 : ℕ
  pub reg_r12 : ℕ
  pub reg_r13 : ℕ
  pub reg_r14 : ℕ
  pub reg_r15 : ℕ
  pub reg_fs : ℕ
  pub reg_gs : ℕ
  pub reg_intno : ℕ
  pub reg_err : ℕ
  pub reg_rip : ℕ
  pub reg_cs : ℕ
  pub reg_rflags : ℕ
  pub reg_rsp : ℕ
  pub reg_ss : ℕ

pub record Proc : Type 0 where
  pub p_pid : ℕ
  pub p_registers : Registers
  pub p_state : ProcState
  pub p_pagetable : ℕ

-- `physical_pageinfo`
pub record PageInfo : Type 0 where
  pub owner : ℕ
  pub refcount : ℕ

pub record Kernel : Type 0 where
  pub mem : Mem
  pub pageinfo : ℕ → PageInfo
  pub processes : ℕ → Proc
  pub current : ℕ
  pub ticks : ℕ
  pub pagetable_owner : ℕ
  pub cr3 : ℕ
  pub keys : List ℕ

-- How the kernel can stop: it powers off or reboots with an argument on a key, it still polls the
-- keyboard when the keys that are given have been read, or it reads outside an array, of which C
-- does not say what follows.
pub data Stop : Type 0 where
  powered_off : Stop
  rebooted : ℕ → Stop
  polling : Stop
  out_of_bounds : Stop

-- `panic` and a failing `assert` never return.
pub data Run (A : Type 0) : Type 0 where
  ok : A → Kernel → Run A
  panic : Run A
  stop : Stop → Run A

abbrev pub K : Type 0 → Type 0
K A = Kernel → Run A

abbrev pub pure : {A : Type 0} → A → K A
pure a k = ok a k

module _ {A B : Type 0} where
  abbrev pub and_then : Run A → (A → K B) → Run B
  and_then (ok a k) f = f a k
  and_then panic f = panic
  and_then (stop s) f = stop s

  infixl 5 ◌>>=◌ ◌>>◌
  abbrev pub ◌>>=◌ : K A → (A → K B) → K B
  m >>= f = λ k. and_then (m k) f

  abbrev pub ◌>>◌ : K A → K B → K B
  m >> n = m >>= λ _. n

abbrev pub assert : Bool → K (Unit {0})
assert true k = ok tt k
assert false k = panic

-- `if (test) { assert(condition); }`
abbrev pub assert_when : Bool → Bool → K (Unit {0})
assert_when true condition = assert condition
assert_when false condition = pure tt

abbrev pub read64 : ℕ → K ℕ
read64 a k = ok (load64 k.mem a) k

abbrev pub write64 : ℕ → ℕ → K (Unit {0})
write64 a v k = ok tt (record k { mem = store64 k.mem a v })

abbrev pub clear : ℕ → ℕ → K (Unit {0})
clear a n k = ok tt (record k { mem = memset k.mem a 0 n })

-- Array update.
abbrev pub update {ℓ} : {A : Type ℓ} → (ℕ → A) → ℕ → A → ℕ → A
update f i v j = if j == i then v else f j
