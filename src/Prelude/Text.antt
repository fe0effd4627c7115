-- ===== src/Prelude/Text.antt =====
-- What the program uses of Python's `str` and of SQL's LIKE: words, joining, stripping, slices.
mod Words
unfoldable pub use Words.*
