-- ===== src/Memory/Access.antt =====
-- 64-bit loads after stores.
use weensy_osvm.Base.{
  ℕ, zero, suc, ◌+◌, ◌/◌, ◌%◌, ◌^◌, ◌≤◌, ◌<◌, ◌≡◌, ◌≢◌, refl, ◌∙◌, ◌⊎◌, inl, arith,
}
use native.Mathlib.Nat.{pow-suc}
use weensy_osvm.Memory.{Mem, store8, load_bytes, store_bytes, load64, store64}

store_bytes-outside :
    (n : ℕ) (m : Mem) (a v b : ℕ) → (b < a) ⊎ (a + n ≤ b) → store_bytes n m a v b ≡ m b
unfolding store_bytes store8
store_bytes-outside zero m a v b h = refl
store_bytes-outside (suc n) m a v b h =
    ground (arith, store_bytes-outside n (store8 m a (v % 2 ^ 8)) (a + 1) (v / 256) b)

-- A load depends on the bytes that it reads, and on no other.
load_bytes-same :
    (n : ℕ) (m m' : Mem) (a : ℕ)
    → ((b : ℕ) → a ≤ b → b < a + n → m' b ≡ m b)
    → load_bytes n m' a ≡ load_bytes n m a
unfolding load_bytes
load_bytes-same zero m m' a h = refl
load_bytes-same (suc n) m m' a h = omega (
  arith,
  h a (omega arith) (omega arith),
  load_bytes-same n m m' (a + 1) (λ b p q. h b (omega arith) (omega arith)),
)

load_bytes-store_bytes :
    (n : ℕ) (m : Mem) (a v : ℕ) → v < 256 ^ n → load_bytes n (store_bytes n m a v) a ≡ v
unfolding load_bytes store_bytes store8
load_bytes-store_bytes zero m a v h = omega arith
load_bytes-store_bytes (suc n) m a v h =
    let m' = store8 m a (v % 2 ^ 8) in
    let first : store_bytes n m' (a + 1) (v / 256) a ≡ v % 2 ^ 8 =
      store_bytes-outside n m' (a + 1) (v / 256) a (inl (omega arith)) ∙ ground arith in
    omega (
      arith,
      first,
      pow-suc 256 n,
      load_bytes-store_bytes n m' (a + 1) (v / 256) (omega (arith, pow-suc 256 n)),
    )

pub load64-same :
    (m m' : Mem) (a : ℕ) → ((b : ℕ) → a ≤ b → b < a + 8 → m' b ≡ m b) → load64 m' a ≡ load64 m a
unfolding load64
load64-same m m' a h = load_bytes-same 8 m m' a h

pub load64-store64_self : (m : Mem) (a v : ℕ) → v < 2 ^ 64 → load64 (store64 m a v) a ≡ v
unfolding load64 store64
load64-store64_self m a v h = load_bytes-store_bytes 8 m a v h

-- A store is seen only at its own eight bytes.
pub store64-outside : (m : Mem) (a v b : ℕ) → (b < a) ⊎ (a + 8 ≤ b) → store64 m a v b ≡ m b
unfolding store64
store64-outside m a v b h = store_bytes-outside 8 m a v b h

-- Two different aligned words do not overlap.
pub load64-store64_ne :
    (m : Mem) (a v b : ℕ) → a % 8 ≡ 0 → b % 8 ≡ 0 → a ≢ b → load64 (store64 m a v) b ≡ load64 m b
load64-store64_ne m a v b ha hb ne =
    load64-same m (store64 m a v) b (λ c p q. store64-outside m a v c (ground arith))
