-- ===== src/Process/Users.antt =====
-- kernel.c: how many processes use the kernel's page table.
use weensy_osvm.Base.{
  ℕ, zero, suc, ◌+◌, ◌≡◌, refl, sym, ap, ◌∙◌, Bool, not, ◌&&◌, ◌==◌, if◌then◌else◌, arith,
}
use weensy_osvm.State.{Kernel}
use weensy_osvm.Process.{Link, nproc}
use weensy_osvm.Process.Fork.{is_p_free}
use weensy_osvm.Process.Check.{count_kernel_users}

-- The process of the slot `pid` is in use and has the kernel's page table.
abbrev pub uses_kernel_table : (link : Link) (k : Kernel) (pid : ℕ) → Bool
uses_kernel_table link k pid =
    not (is_p_free (k.processes pid).p_state)
    && (k.processes pid).p_pagetable == link.kernel_pagetable

-- How many of the numbers below `n` have the property `p`.
pub how_many : (p : ℕ → Bool) (n : ℕ) → ℕ
how_many p zero = 0
how_many p (suc n) = if p n then how_many p n + 1 else how_many p n

how_many-same : (p q : ℕ → Bool) (n : ℕ) → ((i : ℕ) → p i ≡ q i) → how_many p n ≡ how_many q n
unfolding how_many
how_many-same p q zero h = refl
how_many-same p q (suc n) h = rw (h n, how_many-same p q n h) refl

how_many-first :
    (p : ℕ → Bool) (n : ℕ)
    → how_many p (suc n) ≡ (if p 0 then 1 else 0) + how_many (λ i. p (suc i)) n
unfolding how_many
how_many-first p zero = ground arith
how_many-first p (suc n) = ground (arith, how_many-first p n)

users_from :
    (link : Link) (k : Kernel) (n pid : ℕ)
    → count_kernel_users link.kernel_pagetable n pid k
      ≡ how_many (λ i. uses_kernel_table link k (pid + i)) n
unfolding count_kernel_users how_many
users_from link k zero pid = refl
users_from link k (suc n) pid =
    let uses = uses_kernel_table link k in
    let here : uses pid ≡ uses (pid + 0) = ap uses (omega arith) in
    let rest =
      users_from link k n (pid + 1)
      ∙ how_many-same (λ i. uses (pid + 1 + i)) (λ i. uses (pid + suc i)) n
          (λ i. ap uses (omega arith)) in
    rw (rest, here) (sym (how_many-first (λ i. uses (pid + i)) n))

pub count_kernel_users-how_many :
    (link : Link) (k : Kernel)
    → count_kernel_users link.kernel_pagetable nproc 0 k ≡ how_many (uses_kernel_table link k) nproc
count_kernel_users-how_many link k =
    users_from link k nproc 0
    ∙ how_many-same (λ i. uses_kernel_table link k (0 + i)) (uses_kernel_table link k) nproc
        (λ i. ap (uses_kernel_table link k) (omega arith))
