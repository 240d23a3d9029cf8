-- ===== src/MimeTypes.antt =====
-- `server::mime_types::extension_to_type` (src/mime_types.cc).
pub mod Laws
use server_spring.Base.{Bytes, codes, equal, List, [], ◌∷◌, if◌then◌else◌}

abbrev pub mappings : List (Bytes × Bytes)
mappings =
    (codes ".gif", codes "image/gif")
    ∷ (codes ".htm", codes "text/html")
    ∷ (codes ".html", codes "text/html")
    ∷ (codes ".jpg", codes "image/jpeg")
    ∷ (codes ".png", codes "image/png")
    ∷ (codes ".pdf", codes "application/pdf")
    ∷ (codes ".zip", codes "application/zip")
    ∷ (codes ".js", codes "application/javascript")
    ∷ (codes ".json", codes "application/json")
    ∷ (codes ".css", codes "text/css")
    ∷ (codes ".ico", codes "image/x-icon")
    ∷ []

pub find_type : List (Bytes × Bytes) → Bytes → Bytes
find_type [] extension = codes "text/plain"
find_type ((e, mime_type) ∷ ms) extension =
    if equal e extension then mime_type else find_type ms extension

unfoldable pub extension_to_type : Bytes → Bytes
unfolding find_type
extension_to_type extension = find_type mappings extension
