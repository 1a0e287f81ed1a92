-- ===== src/Json.antt =====
-- util/json: values, tokens, and the parser.
pub mod Value
pub mod Parser
pub mod Lexer
pub mod Number
pub mod Writer
