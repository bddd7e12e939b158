-- ===== src/Decimal.antt =====
-- What a decimal print is, apart from any code that makes one.
mod Value
mod Unique
pub use Value.*
pub use Unique.*
