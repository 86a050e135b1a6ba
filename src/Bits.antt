-- ===== src/Bits.antt =====
-- Laws of `&`, `|` and `^` on words of any width.
mod Step
mod Digit
mod Laws
mod Arith
mod Algebra
pub use Step.*
pub use Digit.*
pub use Laws.*
pub use Arith.*
pub use Algebra.*
