-- ===== src/CString.antt =====
-- C strings as lists of bytes, without the terminating NUL, and the functions of the C library
-- that the programs call on them: strstr, strtok, strncmp against a literal, atoi.
mod Defs
mod Laws
unfoldable pub use Defs.*
pub use Laws.*
