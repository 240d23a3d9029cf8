-- ===== src/Palette/Handler.antt =====
-- `PaletteHandler::handle_request` (src/request_handler/palette_handler.cc).
use server_spring.Base.{
  Bool, true, false, not, ◌||◌, List, [], ◌∷◌, Bytes, codes, equal, Run, ok, ◌>>=◌, if◌then◌else◌,
}
use server_spring.Http.{Status, Request, Response, Library, Machine, set_response}
use server_spring.Palette.Input.{trim_whitespace, valid_input, generate_json_response}
use server_spring.Palette.Web.{get_colors, get_names}

abbrev pub is_empty {ℓ} : {A : Type ℓ} → List A → Bool
is_empty [] = true
is_empty (x ∷ xs) = false

module _ {S : Type 0} (lib : Library) (machine : Machine S) where
  -- from the palette on
  unfoldable pub send_palette : List Bytes → List Bytes → S → Response → Run (Bool × Response × S)
  send_palette colors color_names s response =
      if is_empty colors || is_empty color_names
      then ok (
        false,
        set_response lib Status.internal_server_error (codes "text/plain")
            (codes "Unable to generate palette.") response,
        s,
      )
      else (do
        json_body ← generate_json_response colors color_names
        ok (true, set_response lib Status.ok (codes "application/json") json_body response, s))

  unfoldable pub handle_palette : Request → S → Response → Run (Bool × Response × S)
  unfolding send_palette
  handle_palette r s response =
      if not (equal r.method (codes "POST"))
      then ok (
        false,
        set_response lib Status.bad_request (codes "text/plain")
            (codes "Invalid HTTP method for target\n") response,
        s,
      )
      else if not (valid_input (trim_whitespace r.body))
      then ok (
        false,
        set_response lib Status.bad_request (codes "text/html")
            (codes
              "Request body should be non-empty and can only contain letters, numbers, and spaces\n")
            response,
        s,
      )
      else (do
        (colors, s') ← get_colors lib machine (trim_whitespace r.body) s
        (color_names, s'') ← get_names lib machine colors s'
        send_palette colors color_names s'' response)
