-- ===== src/Exotel.antt =====
-- internal/exotel: the vendor's API. A reply of the HTTP client is an argument of the code that
-- asks for it, and so is encoding/json at each payload.
pub mod Types
pub mod Http
pub mod Numbers
pub mod Streams
pub mod Calls
pub mod Pages
pub mod Heartbeat
pub mod Affected
pub mod Answered
