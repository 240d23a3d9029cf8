-- ===== src/Handlers.antt =====
-- The request handlers (src/request_handler).
pub mod Plain
pub mod Files
