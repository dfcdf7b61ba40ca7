-- ===== src/Mateql/Parse/Total.antt =====
-- The methods of the parser always end with a value or an error.
pub mod Tokens
pub mod Items
pub mod Words
pub mod Filters
pub mod Parts
pub mod Exprs
pub mod Single
