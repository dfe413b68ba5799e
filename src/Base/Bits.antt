-- ===== src/Base/Bits.antt =====
-- `&` and `|` on machine words, as arithmetic.
mod Lowest
mod Masks
pub use Lowest.{bit_and-lowest, bit_or-lowest}
pub use Masks.*
