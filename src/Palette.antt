-- ===== src/Palette.antt =====
-- The palette service: Search has the search in texts, Input what `PaletteHandler` does with the
-- request, Web the calls of web services (src/palette_api.cc), Handler the handler
-- (src/request_handler/palette_handler.cc).
pub mod Search
pub mod Input
pub mod Web
pub mod Handler
pub mod Safety
pub mod Answers
pub mod Trimming
pub mod Occurrences
pub mod Colors
