-- ===== src/Text.antt =====
-- What the program uses of the Rust standard library's texts, over bytes.
mod Compare
pub mod Utf8
mod Split
pub mod Trim
mod Number
pub mod Digits
pub mod Numerals
unfoldable pub use Compare.*
unfoldable pub use Utf8.*
unfoldable pub use Split.*
unfoldable pub use Trim.*
unfoldable pub use Number.*
