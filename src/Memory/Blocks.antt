-- ===== src/Memory/Blocks.antt =====
-- What `memset`, `memcpy` and `memmove` leave in memory, byte by byte.
use weensy_osvm.Base.{
  ℕ, zero, suc, ◌+◌, ◌-◌, ◌%◌, ◌^◌, ◌≤◌, ◌<◌, ◌≡◌, ◌⊎◌, arith, ltb, ◌&&◌, leb, if◌then◌else◌,
}
use weensy_osvm.Memory.{Mem, store8, load64, load_bytes, memset, memcpy, memmove, memmove_down}
use weensy_osvm.Memory.Access.{load64-same}

-- The block holds the byte, and nothing else changes.
pub memset-bytes :
    (m : Mem) (v c n b : ℕ)
    → memset m v c n b ≡ (if leb v b && ltb b (v + n) then c % 2 ^ 8 else m b)
unfolding memset store8
memset-bytes m v c zero b = ground arith
memset-bytes m v c (suc n) b = ground (arith, memset-bytes (store8 m v (c % 2 ^ 8)) (v + 1) c n b)

pub memset-outside : (m : Mem) (v c n b : ℕ) → (b < v) ⊎ (v + n ≤ b) → memset m v c n b ≡ m b
memset-outside m v c n b h = ground (arith, memset-bytes m v c n b)

pub memset-inside : (m : Mem) (v c n b : ℕ) → v ≤ b → b < v + n → memset m v c n b ≡ c % 2 ^ 8
memset-inside m v c n b h k = ground (arith, memset-bytes m v c n b)

load64-zeros : (m : Mem) (a : ℕ) → ((b : ℕ) → a ≤ b → b < a + 8 → m b ≡ 0) → load64 m a ≡ 0
unfolding load64 load_bytes
load64-zeros m a h = load64-same (λ _. 0) m a h

-- A cleared block reads as zero words.
pub load64-memset_zero :
    (m : Mem) (v n a : ℕ) → v ≤ a → a + 8 ≤ v + n → load64 (memset m v 0 n) a ≡ 0
load64-memset_zero m v n a h k =
    load64-zeros (memset m v 0 n) a (λ b p q. memset-inside m v 0 n b (omega arith) (omega arith))

-- Without overlap, the target holds the source's bytes and nothing else changes.
pub memcpy-bytes :
    (m : Mem) (dst src n b : ℕ)
    → (src + n ≤ dst) ⊎ (dst ≤ src)
    → memcpy m dst src n b ≡ (if leb dst b && ltb b (dst + n) then m (src + (b - dst)) else m b)
unfolding memcpy store8
memcpy-bytes m dst src zero b h = ground arith
memcpy-bytes m dst src (suc n) b h =
    ground (arith, memcpy-bytes (store8 m dst (m src)) (dst + 1) (src + 1) n b)

memmove_down-bytes :
    (m : Mem) (dst src n b : ℕ)
    → src ≤ dst
    → memmove_down m dst src n b
      ≡ (if leb dst b && ltb b (dst + n) then m (src + (b - dst)) else m b)
unfolding memmove_down store8
memmove_down-bytes m dst src zero b h = ground arith
memmove_down-bytes m dst src (suc n) b h =
    ground (arith, memmove_down-bytes (store8 m (dst + n) (m (src + n))) dst src n b h)

-- Whatever the overlap, `memmove` leaves in the target what the source held before.
pub memmove-bytes :
    (m : Mem) (dst src n b : ℕ)
    → memmove m dst src n b ≡ (if leb dst b && ltb b (dst + n) then m (src + (b - dst)) else m b)
unfolding memmove
memmove-bytes m dst src n b =
    ground (arith, memmove_down-bytes m dst src n b, memcpy-bytes m dst src n b)
