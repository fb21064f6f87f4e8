-- ===== src/Text.antt =====
-- `std::string` and `std::istringstream`, as far as src/ and include/ use them. A text is the list of
-- its bytes. A position that a search did not find (`npos`) is `none`; a position that was found lies
-- below `max_size`, so a sum with it does not wrap around, and a sum with `npos` does.
mod Search
mod Stream
mod Decimal
mod Laws
mod Words
pub use Search.{Bytes, crlf, codes, Lacks, plus}
unfoldable pub use Search.{starts_with, find, find_class, find_from, substr, text_eq, to_lower}
pub use Stream.{IStream, Number, untouched, read, failed, into, open_stream, read_unsigned-lt}
unfoldable pub use Stream.{is_space, skip_space, word, after_word, read_word, read_unsigned}
unfoldable pub use Decimal.{decimal}
pub use Laws.*
pub use Words.*
