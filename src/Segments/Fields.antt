-- ===== src/Segments/Fields.antt =====
-- The fields of a descriptor, as the processor reads them, from the words that the code builds.
use weensy_osvm.Base.{ℕ, ◌+◌, ◌-◌, ◌*◌, ◌/◌, ◌%◌, ◌^◌, ◌<◌, ◌≤◌, ◌≡◌, refl, arith}
use weensy_osvm.Base.Bits.{
  bit_and_low, bit_and_high, low_bit_or, bit_or_sum, bit_or_above, bit_or-zero,
}
use weensy_osvm.Segments.{Gate, set_gate, set_sys_segment, segsel_kern_code}

-- The fields that the processor reads in a descriptor of an interrupt gate.
unfoldable pub offset : Gate → ℕ
offset g = g.gd_low % 2 ^ 16 + g.gd_low / 2 ^ 48 % 2 ^ 16 * 2 ^ 16 + g.gd_high % 2 ^ 32 * 2 ^ 32

unfoldable pub selector : Gate → ℕ
selector g = g.gd_low / 2 ^ 16 % 2 ^ 16

-- The type and the bit S, which is 0 for gates and system segments.
unfoldable pub type_of : (low : ℕ) → ℕ
type_of low = low / 2 ^ 40 % 2 ^ 5

unfoldable pub level_of : (low : ℕ) → ℕ
level_of low = low / 2 ^ 45 % 4

unfoldable pub present_of : (low : ℕ) → ℕ
present_of low = low / 2 ^ 47 % 2

gate_low :
    (t dpl function : ℕ)
    → t < 16
    → dpl < 4
    → (set_gate (t * 2 ^ 40) dpl function).gd_low
      ≡ function % 2 ^ 16
        + 8 * 2 ^ 16
        + t * 2 ^ 40
        + dpl * 2 ^ 45
        + 2 ^ 47
        + function / 2 ^ 16 % 2 ^ 16 * 2 ^ 48
unfolding set_gate
gate_low t dpl function ht hd = ground (
  arith,
  bit_and_low 16 function,
  bit_and_low 16 (function / 2 ^ 16),
  bit_and_high 16 function 0xFFFF,
  low_bit_or 16 8 (function % 2 ^ 16),
  low_bit_or 40 t (function % 2 ^ 16 + 8 * 2 ^ 16),
  low_bit_or 45 dpl (function % 2 ^ 16 + 8 * 2 ^ 16 + t * 2 ^ 40),
  low_bit_or 47 1 (function % 2 ^ 16 + 8 * 2 ^ 16 + t * 2 ^ 40 + dpl * 2 ^ 45),
  low_bit_or 48 (function / 2 ^ 16 % 2 ^ 16)
      (function % 2 ^ 16 + 8 * 2 ^ 16 + t * 2 ^ 40 + dpl * 2 ^ 45 + 2 ^ 47),
)

gate_high : (type dpl function : ℕ) → (set_gate type dpl function).gd_high ≡ function / 2 ^ 32
unfolding set_gate
gate_high type dpl function = refl

-- What the processor reads in an interrupt gate: the handler's address, the kernel's code segment,
-- the type, and the level that may raise the interrupt by an instruction.
pub record IsGate (t dpl function : ℕ) (g : Gate) : Type 0 where
  pub handler : offset g ≡ function
  pub segment : selector g ≡ segsel_kern_code
  pub gate_type : type_of g.gd_low ≡ t
  pub level : level_of g.gd_low ≡ dpl
  pub present : present_of g.gd_low ≡ 1

-- `set_gate` builds a gate in which the processor reads the handler, the kernel's code segment, the
-- type and the level that were given, and that it is present, for every 64-bit address, 4-bit type
-- and level up to 3.
pub set_gate-IsGate :
    (t dpl function : ℕ)
    → t < 16
    → dpl < 4
    → function < 2 ^ 64
    → IsGate t dpl function (set_gate (t * 2 ^ 40) dpl function)
unfolding offset selector type_of level_of present_of
set_gate-IsGate t dpl function ht hd hf =
    let low = gate_low t dpl function ht hd in
    record {
      handler = omega (arith, low, gate_high (t * 2 ^ 40) dpl function);
      segment = omega (arith, low);
      gate_type = omega (arith, low);
      level = omega (arith, low);
      present = omega (arith, low);
    }

-- The base that the processor reads in a system segment, and its limit in bytes.
unfoldable pub base_of : ℕ × ℕ → ℕ
base_of (low, high) = low / 2 ^ 16 % 2 ^ 24 + low / 2 ^ 56 % 2 ^ 8 * 2 ^ 24 + high % 2 ^ 32 * 2 ^ 32

unfoldable pub limit_of : ℕ × ℕ → ℕ
limit_of (low, high) = low % 2 ^ 16 + low / 2 ^ 48 % 2 ^ 4 * 2 ^ 16

sys_low :
    (t dpl addr size : ℕ)
    → t < 16
    → dpl < 4
    → 0 < size
    → size ≤ 2 ^ 20
    → (set_sys_segment (t * 2 ^ 40) dpl addr size).0
      ≡ (size - 1) % 2 ^ 16
        + addr % 2 ^ 24 * 2 ^ 16
        + t * 2 ^ 40
        + dpl * 2 ^ 45
        + 2 ^ 47
        + addr / 2 ^ 24 % 2 ^ 8 * 2 ^ 56
unfolding set_sys_segment
sys_low t dpl addr size ht hd hz hs =
    let low = addr % 2 ^ 24 * 2 ^ 16 in
    let high = addr / 2 ^ 24 % 2 ^ 8 in
    let limit = (size - 1) % 2 ^ 16 in
    ground (
      arith,
      bit_and_low 24 addr,
      bit_and_low 8 (addr / 2 ^ 24),
      bit_and_high 24 addr 0xFF,
      bit_and_low 16 (size - 1),
      bit_and_high 16 (size - 1) 0xF,
      bit_and_low 4 ((size - 1) / 2 ^ 16),
      low_bit_or 56 high low,
      bit_or_sum 16 (addr % 2 ^ 24 + high * 2 ^ 40) limit,
      bit_or-zero (limit + low + high * 2 ^ 56),
      bit_or_above 56 high (limit + low) (t * 2 ^ 40),
      low_bit_or 40 t (limit + low),
      bit_or_above 56 high (limit + low + t * 2 ^ 40) (dpl * 2 ^ 45),
      low_bit_or 45 dpl (limit + low + t * 2 ^ 40),
      bit_or_above 56 high (limit + low + t * 2 ^ 40 + dpl * 2 ^ 45) (2 ^ 47),
      low_bit_or 47 1 (limit + low + t * 2 ^ 40 + dpl * 2 ^ 45),
    )

sys_high : (type dpl addr size : ℕ) → (set_sys_segment type dpl addr size).1 ≡ addr / 2 ^ 32
unfolding set_sys_segment
sys_high type dpl addr size = refl

-- What the processor reads in a system segment of `size` bytes, but for the limit.
pub record IsSystem (t dpl addr : ℕ) (words : ℕ × ℕ) : Type 0 where
  pub base : base_of words ≡ addr
  pub segment_type : type_of words.0 ≡ t
  pub level : level_of words.0 ≡ dpl
  pub present : present_of words.0 ≡ 1

-- `set_sys_segment` for a segment of 1 byte to 2 ^ 20: the processor reads the base, the type and
-- the level that were given, and as limit the sixteen low bits of `size - 1`, so that the limit is
-- `size - 1` for a segment of at most 2 ^ 16 bytes and smaller for a larger one.
pub set_sys_segment-IsSystem :
    (t dpl addr size : ℕ)
    → t < 16
    → dpl < 4
    → addr < 2 ^ 64
    → 0 < size
    → size ≤ 2 ^ 20
    → IsSystem t dpl addr (set_sys_segment (t * 2 ^ 40) dpl addr size)
      × (limit_of (set_sys_segment (t * 2 ^ 40) dpl addr size) ≡ (size - 1) % 2 ^ 16)
unfolding base_of limit_of type_of level_of present_of
set_sys_segment-IsSystem t dpl addr size ht hd ha hz hs =
    let low = sys_low t dpl addr size ht hd hz hs in
    (
      record {
        base = omega (arith, low, sys_high (t * 2 ^ 40) dpl addr size);
        segment_type = omega (arith, low);
        level = omega (arith, low);
        present = omega (arith, low);
      },
      omega (arith, low),
    )
