-- ===== src/Palette/Web.antt =====
-- `parse_json`, `parse_html`, `get_palette`, `get_color` and `PaletteAPI` (src/palette_api.cc). A
-- request by libcurl changes the state of the machine, and is `none` where curlpp throws.
use server_spring.Base.{
  ℕ, zero, suc, ◌+◌, Bool, List, [], ◌∷◌, ◌++◌, Bytes, codes, ltb, ◌==◌, length, Option, none, some,
  Run, ok, throws, spent, json_error, ◌>>=◌, if◌then◌else◌,
}
use server_spring.Http.{Library, Machine}
use server_spring.Palette.Search.{find_from, find, substr, substr_from}

abbrev pub hex_length : ℕ
hex_length = 7

abbrev pub color_div : Bytes
color_div = codes "<div class='color' style='background:"

-- the loop, on fuel
unfoldable pub colors_from : ℕ → Bytes → ℕ → ℕ → Run (List Bytes)
colors_from zero html find_color find_end = spent
colors_from (suc fuel) html find_color find_end =
    let go = λ (found : ℕ). (do
      color ← substr html (found + length color_div) hex_length
      rest ← colors_from fuel html (found + length color_div) find_end
      ok (color ∷ rest)) in
    elim (find_from color_div html find_color) [
      | none ↦ ok []
      | some found ↦ if ltb found find_end then go found else ok []
    ]

-- Each round moves on by the length of `color_div`, below `find_end`.
unfoldable pub parse_html : Bytes → Run (List Bytes)
unfolding colors_from
parse_html html = elim (find (codes "Classy Palette") html) [
  | none ↦ ok []
  | some start ↦ elim (find_from (codes "<div class='color-palette js-sr-palette'>") html start) [
    | none ↦ ok []
    | some finish ↦ colors_from (suc (length html)) html start finish
  ]
]

-- `std::replace(word.begin(), word.end(), ' ', '+')`
pub plus : Bytes → Bytes
plus [] = []
plus (c ∷ s) = (if c == b' ' then b'+' else c) ∷ plus s

abbrev pub hex_div : Bytes
hex_div = codes "\"selectText('.hex');\">"

abbrev is_empty {ℓ} : {A : Type ℓ} → List A → Bool
is_empty [] = Bool.true
is_empty (x ∷ xs) = Bool.false

module _ {S : Type 0} (lib : Library) (machine : Machine S) where
  abbrev pub parse_json : Bytes → Run Bytes
  parse_json json = elim (lib.json_name json) [ none ↦ throws json_error | some name ↦ ok name ]

  unfoldable pub get_palette : Bytes → S → Run (List Bytes × S)
  get_palette color s =
      let (page, s') =
        machine.fetch (codes "https://mycolor.space/?hex=%23" ++ (color ++ codes "&sub=1")) s in
      elim page [
        | none ↦ ok ([], s')
        | some html ↦ (do palette ← parse_html html; ok (palette, s'))
      ]

  unfoldable pub get_color : Bytes → S → Run (Bytes × S)
  get_color word s =
      let (page, s') =
        machine.fetch (codes "https://alexbeals.com/projects/colorize/search.php?q=" ++ plus word)
          s in
      elim page [
        | none ↦ ok ([], s')
        | some html ↦ elim (find hex_div html) [
          | none ↦ ok ([], s')
          | some found ↦ (do color ← substr html (found + length hex_div + 1) 6; ok (color, s'))
        ]
      ]

  unfoldable pub get_colors : Bytes → S → Run (List Bytes × S)
  get_colors word s = do
    (color, s') ← get_color word s
    if is_empty color then ok ([], s') else get_palette color s'

  -- the loop of `get_names`; `none` where curlpp throws, and `{}` is returned
  unfoldable pub names_from : List Bytes → S → Run (Option (List Bytes) × S)
  names_from [] s = ok (some [], s)
  names_from (hex_color ∷ hex_colors) s = do
    hex ← substr_from hex_color 1
    let (page, s') = machine.fetch (codes "https://www.thecolorapi.com/id?hex=" ++ hex) s
    elim page [
      | none ↦ ok (none, s')
      | some json ↦ (do
        name ← parse_json json
        (names, s'') ← names_from hex_colors s'
        ok (elim names [ none ↦ none | some ns ↦ some (name ∷ ns) ], s''))
    ]

  unfoldable pub get_names : List Bytes → S → Run (List Bytes × S)
  get_names hex_colors s = do
    (names, s') ← names_from hex_colors s
    ok (elim names [ none ↦ [] | some ns ↦ ns ], s')
