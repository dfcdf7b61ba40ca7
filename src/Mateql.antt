-- ===== src/Mateql.antt =====
-- The package mateql: the lexer, the parser, the printer and the rewriting of MateQL expressions.
pub mod Chars
pub mod Scan
pub mod Ident
pub mod Label
pub mod Escape
pub mod Literals
pub mod BinaryOp
pub mod Lexer
pub mod Ast
pub mod Balance
pub mod Floats
pub mod Eval
pub mod Simplify
pub mod Print
pub mod Functions
pub mod RegexpCache
pub mod Duplicates
pub mod Parse
pub mod Expand
pub mod Compose
