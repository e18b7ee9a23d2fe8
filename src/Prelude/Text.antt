-- ===== src/Prelude/Text.antt =====
-- Rust strings as lists of code points, with the `str` methods that the relay calls.
mod Defs
mod Laws
pub use Defs.{Text, codes}
unfoldable pub use Defs.{
  text_eq, text_ltb, is_whitespace, trim_start, trim_start_matches, trim_end, trim_end_matches,
  trim, starts_with, contains, replace, replace_from, to_ascii_lowercase, eq_ignore_ascii_case,
  strip_suffix,
}
pub use Laws.*
