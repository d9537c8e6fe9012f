-- ===== src/Transport/Rest.antt =====
-- internal/transport/rest: the replies of the HTTP API.
pub mod Status
pub mod ByteRange
pub mod Dto
pub mod Handlers
pub mod Download
pub mod Hidden
pub mod Ranges
pub mod Formats
