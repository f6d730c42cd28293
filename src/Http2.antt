-- ===== src/Http2.antt =====
-- HTTP/2: src/http/v2.c.
pub mod Types
pub mod Send
pub mod Context
pub mod Parse
pub mod Streams
pub mod RoundTrip
pub mod Fragments
mod Tests
