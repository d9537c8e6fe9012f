-- ===== src/Transport.antt =====
-- internal/transport: the decoding of requests and the replies.
pub mod Rest
pub mod Grpc
