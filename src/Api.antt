-- ===== src/Api.antt =====
-- `ApiHandler` (include/request_handler/api_handler.h, src/request_handler/api_handler.cc): Uri has
-- the parts of the target, Methods the handlers of the HTTP methods, over any `FileSystem`.
pub mod Uri
pub mod Methods
pub mod Status
pub mod ReadOnly
pub mod Store
pub mod Answered
pub mod Lifecycle
