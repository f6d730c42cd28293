-- ===== src/Http2/Parse.antt =====
-- parse_http2_frame of src/http/v2.c. The reader is the list of the bytes still to come; a failed
-- parse has sent a GOAWAY frame. An allocation does not fail.
pub mod Common
mod Padded
mod Settings
mod Plain
pub mod Reads
pub mod Takes
pub mod Payloads
pub mod Bounds
unfoldable pub use Common.*
unfoldable pub use Padded.*
unfoldable pub use Settings.*
unfoldable pub use Plain.*
