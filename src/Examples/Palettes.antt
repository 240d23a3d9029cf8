-- ===== src/Examples/Palettes.antt =====
-- A page with a palette of two colours, and one colour behind its end.
use server_spring.Base.{List, [], ◌∷◌, ◌++◌, Bytes, codes, ◌≡◌, refl, ok}
use server_spring.Palette.Search.{starts_with, find, find_from, substr}
use server_spring.Palette.Web.{parse_html}
use server_spring.Palette.Colors.{IsRead, parse_html-IsRead}

abbrev page : Bytes
page =
    codes "<b>Classy Palette</b><div class='color' style='background:#aabbcc'></div>"
    ++ codes "<div class='color' style='background:#010203'></div>"
    ++ codes "<div class='color-palette js-sr-palette'>"
    ++ codes "<div class='color' style='background:#ffffff'></div>"

two_colors : parse_html page ≡ ok (codes "#aabbcc" ∷ codes "#010203" ∷ [])
unfolding parse_html find_from find substr starts_with codes
two_colors = refl

parse_html-IsRead_example :
    (colors : List Bytes) × (parse_html page ≡ ok colors) × IsRead page colors
parse_html-IsRead_example = parse_html-IsRead page
