-- ===== src/Mateql/Compose/Raw.antt =====
-- What the parser of mateql/parser.go gives to the expansion of WITH.
pub mod Parts
pub mod Exprs
pub mod Source
