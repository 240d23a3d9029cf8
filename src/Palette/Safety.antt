-- ===== src/Palette/Safety.antt =====
-- What `PaletteHandler::handle_request` can come to.
use server_spring.Base.{
  ℕ, zero, suc, ◌+◌, ◌≤◌, ◌<◌, ◌≡◌, refl, ap, arith, Bool, true, false, List, [], ◌∷◌, ◌++◌, Bytes,
  codes, length, get_elem?-lt, length-drop, drop, take, out_of_range, Option, none, some, Run, ok,
  throws, Exception, ◌>>=◌, ltb, if◌then◌else◌, Bool-cases, Option-cases, inl, inr,
}
use server_spring.Http.{Library, Machine}
use server_spring.Palette.Search.{find, find_from, substr, substr_from}
use server_spring.Palette.Input.{json_colors}
use server_spring.Palette.Web.{
  color_div, hex_div, hex_length, colors_from, parse_html, get_palette, get_color, get_colors,
  names_from, parse_json, plus,
}
use server_spring.Palette.Handler.{is_empty}

-- A run that returns what `P` holds of, or throws: no behaviour is undefined, and no fuel runs out.
pub data Yields {A : Type 0} (P : A → Type 0) : Run A → Type 0 where
  returned : (a : A) → P a → Yields P (ok a)
  thrown : (e : Exception) → Yields P (throws e)

pub bind-Yields :
    {A B : Type 0} {P : A → Type 0} {Q : B → Type 0} (m : Run A) (f : A → Run B)
    → Yields P m
    → ((a : A) → P a → Yields Q (f a))
    → Yields Q (m >>= f)
bind-Yields _ f (returned a p) h = h a p
bind-Yields _ f (thrown e) h = thrown e

pub if-Yields :
    {A : Type 0} {P : A → Type 0} (b : Bool) (x y : Run A)
    → (b ≡ true → Yields P x)
    → (b ≡ false → Yields P y)
    → Yields P (if b then x else y)
if-Yields true x y p q = p refl
if-Yields false x y p q = q refl

option-Yields :
    {X A : Type 0} {P : A → Type 0} (o : Option X) (x : Run A) (f : X → Run A)
    → Yields P x
    → ((a : X) → o ≡ some a → Yields P (f a))
    → Yields P (elim o [ none ↦ x | some a ↦ f a ])
option-Yields none x f p h = p
option-Yields (some a) x f p h = h a refl

abbrev pub Anything : {A : Type 0} → A → Type 0
Anything a = Unit

find_from-le :
    (needle s : Bytes) (position i : ℕ) → find_from needle s position ≡ some i → position ≤ i
unfolding find_from
find_from-le needle s position i h = ground arith

find-le : (needle s : Bytes) (i : ℕ) → find needle s ≡ some i → i ≤ length s
unfolding find
find-le needle [] i h = ground arith
find-le needle (c ∷ s) i h = elim (Option-cases (find needle s)) [
  | inl e ↦ ground (arith, e, h)
  | inr (j, e) ↦ ground (arith, e, h, find-le needle s j e)
]

find_from-lt :
    (needle s : Bytes) (position i : ℕ) → find_from needle s position ≡ some i → i ≤ length s
unfolding find_from
find_from-lt needle s position i h = elim (Bool-cases (ltb (length s) position)) [
  | inl e ↦ cc (rw e at h)
  | inr e ↦ elim (Option-cases (find needle (drop position s))) [
    | inl n ↦ cc (rw (e, n) at h)
    | inr (j, n) ↦ ground (
      arith,
      rw (e, n) at h,
      find-le needle (drop position s) j n,
      length-drop position s (ground (arith, e)),
    )
  ]
]

substr-Yields : (s : Bytes) (position n : ℕ) → Yields Anything (substr s position n)
unfolding substr
substr-Yields s position n =
    if-Yields (ltb (length s) position) (throws out_of_range) (ok (take n (drop position s)))
      (λ _. thrown _) (λ _. returned _ tt)

substr_from-Yields : (s : Bytes) (position : ℕ) → Yields Anything (substr_from s position)
unfolding substr_from
substr_from-Yields s position =
    if-Yields (ltb (length s) position) (throws out_of_range) (ok (drop position s)) (λ _. thrown _)
      (λ _. returned _ tt)

color_div-le : 1 ≤ length color_div
unfolding codes
color_div-le = omega arith

colors_from-Yields :
    (fuel : ℕ) (html : Bytes) (find_color find_end : ℕ)
    → 1 ≤ fuel
    → find_end < fuel + find_color
    → Yields Anything (colors_from fuel html find_color find_end)
unfolding colors_from
colors_from-Yields zero html find_color find_end k h = absurd (omega arith)
colors_from-Yields (suc f) html find_color find_end k h =
    elim (Option-cases (find_from color_div html find_color)) [
      | inl e ↦ rw (e, colors_from) (returned [] tt)
      | inr (found, e) ↦
          rw (e, colors_from)
            (if-Yields (ltb found find_end) _ _
              (λ l.
                let le = find_from-le color_div html find_color found e in
                bind-Yields _ _ (substr-Yields html _ hex_length) (λ color _.
                  bind-Yields _ _
                    (colors_from-Yields f html (found + length color_div) find_end
                      (ground (arith, l, le)) (ground (arith, l, le, color_div-le)))
                    (λ rest _. returned _ tt)))
              (λ _. returned [] tt))
    ]

parse_html-Yields : (html : Bytes) → Yields Anything (parse_html html)
unfolding parse_html
parse_html-Yields html =
    option-Yields (find (codes "Classy Palette") html) _ _ (returned [] tt) (λ first _.
      option-Yields (find_from (codes "<div class='color-palette js-sr-palette'>") html first) _ _
        (returned [] tt)
        (λ last e.
          colors_from-Yields (suc (length html)) html first last (omega arith)
            (omega (arith, find_from-lt _ html first last e))))

pub json_colors-Yields :
    (colors names : List Bytes) (i : ℕ)
    → i + length colors ≤ length names
    → Yields Anything (json_colors colors names i)
unfolding json_colors
json_colors-Yields [] names i h = returned [] tt
json_colors-Yields (hex ∷ colors) names i h =
    let (name, e) = get_elem?-lt names i (omega (arith, h)) in
    rw e (
      bind-Yields _ _ (json_colors-Yields colors names (i + 1) (omega (arith, h)))
        (λ rest _. returned _ tt))

module _ {S : Type 0} (lib : Library) (machine : Machine S) where
  get_color-Yields : (word : Bytes) (s : S) → Yields Anything (get_color lib machine word s)
  unfolding get_color
  get_color-Yields word s =
      let (page, s') =
        machine.fetch (codes "https://alexbeals.com/projects/colorize/search.php?q=" ++ plus word)
          s in
      option-Yields page _ _ (returned _ tt) (λ html _.
        option-Yields (find hex_div html) _ _ (returned _ tt) (λ found _.
          bind-Yields _ _ (substr-Yields html (found + length hex_div + 1) 6)
            (λ color _. returned _ tt)))

  get_palette-Yields : (color : Bytes) (s : S) → Yields Anything (get_palette lib machine color s)
  unfolding get_palette
  get_palette-Yields color s =
      let (page, s') =
        machine.fetch (codes "https://mycolor.space/?hex=%23" ++ (color ++ codes "&sub=1")) s in
      option-Yields page _ _ (returned _ tt)
        (λ html _. bind-Yields _ _ (parse_html-Yields html) (λ palette _. returned _ tt))

  pub get_colors-Yields : (word : Bytes) (s : S) → Yields Anything (get_colors lib machine word s)
  unfolding get_colors
  get_colors-Yields word s = bind-Yields _ _ (get_color-Yields word s) (λ (color, s') _.
      if-Yields (is_empty color) _ _ (λ _. returned _ tt) (λ _. get_palette-Yields color s'))

  parse_json-Yields : (json : Bytes) → Yields Anything (parse_json lib machine json)
  parse_json-Yields json =
      option-Yields (lib.json_name json) _ _ (thrown _) (λ name _. returned _ tt)

  -- a name for each colour, or none at all
  abbrev pub NamesFor : List Bytes → Option (List Bytes) × S → Type 0
  NamesFor colors x = elim x.0 [ none ↦ Unit | some names ↦ length names ≡ length colors ]

  pub names_from-Yields :
      (colors : List Bytes) (s : S) → Yields (NamesFor colors) (names_from lib machine colors s)
  unfolding names_from
  names_from-Yields [] s = returned _ refl
  names_from-Yields (c ∷ cs) s = bind-Yields _ _ (substr_from-Yields c 1) (λ hex _.
      let (page, s') = machine.fetch (codes "https://www.thecolorapi.com/id?hex=" ++ hex) s in
      option-Yields page _ _ (returned _ tt) (λ json _.
        bind-Yields _ _ (parse_json-Yields json) (λ name _.
          bind-Yields _ _ (names_from-Yields cs s')
            (λ (names, s'') h. returned _ (more name names h)))))
    where
      more :
          (name : Bytes) (names : Option (List Bytes))
          → NamesFor cs (names, s)
          → NamesFor (c ∷ cs) (elim names [ none ↦ none | some ns ↦ some (name ∷ ns) ], s)
      more name none h = tt
      more name (some ns) h = ap suc h
