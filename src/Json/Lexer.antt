-- ===== src/Json/Lexer.antt =====
-- util/json/lexer/JsonLexer.cxx, with util/json/reader/DefaultResettableReader.cxx: tokens from bytes. What the reader
-- has not read yet is a list of bytes; `mark(1)` and `reset` give the byte back that was read since.
use openkit_native.Prelude.{List, ℕ}
pub mod Characters
pub mod Number
pub mod Text
pub mod Stream
pub mod Fuel
pub mod Total
pub mod Single
pub mod Several

-- What a part of the lexer gives, with the bytes that are left: a JsonLexerException, and the `std::logic_error` of a
-- `reset` that goes back too far. The fuel of a loop never runs out.
pub data Lexed {ℓ} (A : Type ℓ) : Type ℓ where
  lexed : A → List ℕ → Lexed A
  lexer_exception logic_error out_of_fuel : Lexed A

module _ {ℓ κ} {A : Type ℓ} {B : Type κ} where
  abbrev pub then_lex : Lexed A → (A → List ℕ → Lexed B) → Lexed B
  then_lex (lexed a rest) f = f a rest
  then_lex lexer_exception f = lexer_exception
  then_lex logic_error f = logic_error
  then_lex out_of_fuel f = out_of_fuel
