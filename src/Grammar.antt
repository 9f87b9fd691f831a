-- ===== src/Grammar.antt =====
-- The tokens of listcerts/asn1_compiler.c, which makes the byte code of the decoder.
pub mod Tables
pub mod Directives
pub mod Compare
pub mod Lexer
pub mod Comments
pub mod Cover
pub mod Element
pub mod Cursor
pub mod Parser
pub mod Syntax
pub mod Definitions
pub mod Cells
pub mod Renderer
