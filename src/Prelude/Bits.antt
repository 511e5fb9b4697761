-- ===== src/Prelude/Bits.antt =====
-- `&`, `|` and `~` on registers: the algebra that the masks of the program use. Each law is proved
-- one binary digit at a time, so it holds at every width.
mod Step
mod Digit
mod Laws
mod Places
pub use Step.*
pub use Laws.*
pub use Places.*
