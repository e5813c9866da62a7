-- ===== src/Strings.antt =====
-- What the source uses of Go's packages strings, strconv, bufio, html and path/filepath, over
-- bytes. The lemmas are in the children.
pub mod Trim
pub mod Parts
pub mod Search
pub mod Numbers
pub mod Lines
pub mod Escape
pub mod Paths
unfoldable pub use Trim.{trim_space, trim_right_byte}
unfoldable pub use Parts.{split, join, cut}
unfoldable pub use Search.{
  has_prefix, has_suffix, trim_prefix, trim_suffix, index, contains, last_index, replace_all,
}
unfoldable pub use Numbers.{itoa, atoi, ascii_lower, to_upper_byte}
unfoldable pub use Lines.{scan_lines}
unfoldable pub use Escape.{escape_string}
unfoldable pub use Paths.{base}
