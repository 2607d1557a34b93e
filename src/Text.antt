-- ===== src/Text.antt =====
-- Python's `str`, as its list of code points, and the operations of `str` that the program calls.
mod Defs
mod Laws
mod Order
unfoldable pub use Defs.{text_eq, starts_with}
pub use Order.{lex_le}
pub use Defs.{Text, text, is_empty, mem_text, texts_eq}
pub use Laws.*
unfoldable pub use Order.{no_surrogates, utf16_key, utf16_le}
