-- ===== src/Palette/Colors.antt =====
-- `parse_html` (src/palette_api.cc) against a reading of the page position by position.
use server_spring.Base.{
  ℕ, zero, suc, ◌+◌, ◌-◌, ◌≤◌, ◌<◌, ◌≡◌, ◌≢◌, refl, ap, sym, ◌∙◌, arith, true, false, List, [], ◌∷◌,
  Bytes, codes, length, take, drop, ltb, All, Option, none, some, Run, ok, ◌>>=◌, if◌then◌else◌,
  Bool-cases, Option-cases, inl, inr,
}
use server_spring.Palette.Search.{find, find_from, substr}
use server_spring.Palette.Occurrences.{
  occurs, IsFound, absent, first, find-IsFound, find_from-IsFound, occurs-apart, occurs-le,
}
use server_spring.Palette.Web.{hex_length, color_div, colors_from, parse_html}

-- the colours of the next `k` positions from `i` on: the seven bytes behind each `color_div`
abbrev pub colors_at : ℕ → ℕ → Bytes → List Bytes
colors_at zero i html = []
colors_at (suc k) i html =
    let rest = colors_at k (suc i) html in
    if occurs color_div html i
    then take hex_length (drop (i + length color_div) html) ∷ rest
    else rest

-- no colour begins at the next `d` of the `k` positions
skip :
    (html : Bytes) (d k i : ℕ)
    → ((j : ℕ) → i ≤ j → j < i + d → j < i + k → occurs color_div html j ≡ false)
    → colors_at k i html ≡ colors_at (k - d) (i + d) html
skip html zero k i h = ground arith
skip html (suc d) zero i h = ground arith
skip html (suc d) (suc k) i h =
    let e : i + suc d ≡ suc i + d = omega arith in
    let e' : suc k - suc d ≡ k - d = omega arith in
    rw (h i (omega arith) (omega arith) (omega arith), e, e')
      (skip html d k (suc i) (λ j le lt lt'. h j (omega arith) (omega arith) (omega arith)))

only_first : All (λ x. x ≢ b'<') (drop 1 color_div)
unfolding codes
only_first = ground arith

split_div : color_div ≡ b'<' ∷ drop 1 color_div
unfolding codes
split_div = refl

color_div-IsFound :
    (html : Bytes) (start : ℕ) → IsFound color_div html start (find_from color_div html start)
color_div-IsFound html start = rw split_div (find_from-IsFound b'<' (drop 1 color_div) html start)

color_div-apart :
    (html : Bytes) (i j : ℕ)
    → occurs color_div html i ≡ true
    → i < j
    → j < i + length color_div
    → occurs color_div html j ≡ false
color_div-apart html i j h lt lt' = rw split_div (
    occurs-apart b'<' (drop 1 color_div) html i j only_first (rw split_div at h) lt
      (rw split_div at lt'))

color_div-le :
    (html : Bytes) (i : ℕ) → occurs color_div html i ≡ true → i + length color_div ≤ length html
color_div-le html i h = rw split_div (occurs-le b'<' (drop 1 color_div) html i (rw split_div at h))

color_div-long : 1 ≤ length color_div
unfolding codes
color_div-long = omega arith

none_left :
    (html : Bytes) (start finish : ℕ)
    → ((j : ℕ) → start ≤ j → j < finish → occurs color_div html j ≡ false)
    → colors_at (finish - start) start html ≡ []
none_left html start finish h =
    let e : finish - start - (finish - start) ≡ 0 = omega arith in
    skip html (finish - start) (finish - start) start
      (λ j le lt lt'. h j (omega arith) (omega arith))
    ∙ rw e refl

-- the first of the positions, and the colours behind it: no other begins inside its `color_div`
next_color :
    (html : Bytes) (i finish : ℕ)
    → occurs color_div html i ≡ true
    → i < finish
    → colors_at (finish - i) i html
      ≡ take hex_length (drop (i + length color_div) html)
        ∷ colors_at (finish - (i + length color_div)) (i + length color_div) html
next_color html i finish here lt =
    let n = length color_div - 1 in
    let k : finish - i ≡ suc (finish - i - 1) = omega arith in
    let behind : suc i + n ≡ i + length color_div = omega (arith, color_div-long) in
    let left : finish - i - 1 - n ≡ finish - (i + length color_div) =
      omega (arith, color_div-long) in
    rw (k, here)
      (ap (λ cs. take hex_length (drop (i + length color_div) html) ∷ cs)
        (skip html n (finish - i - 1) (suc i)
            (λ j le lt' lt''. color_div-apart html i j here (omega arith) (omega (arith, behind)))
          ∙ rw (left, behind) refl))

-- what the loop does with the position that is found
abbrev round : Bytes → ℕ → (ℕ → Run (List Bytes)) → Option ℕ → Run (List Bytes)
round html finish loop none = ok []
round html finish loop (some found) =
    if ltb found finish
    then (do
      color ← substr html (found + length color_div) hex_length
      rest ← loop (found + length color_div)
      ok (color ∷ rest))
    else ok []

round-colors_at :
    (html : Bytes) (start finish : ℕ) (loop : ℕ → Run (List Bytes)) (o : Option ℕ)
    → IsFound color_div html start o
    → ((i : ℕ) → start < i → i ≤ length html → loop i ≡ ok (colors_at (finish - i) i html))
    → round html finish loop o ≡ ok (colors_at (finish - start) start html)
unfolding substr
round-colors_at html start finish loop _ (absent never) ih =
    ap ok (sym (none_left html start finish (λ j le lt. never j le)))
round-colors_at html start finish loop _ (first i le here never) ih =
    elim (Bool-cases (ltb i finish)) [
      | inr e ↦ rw e (
          ap ok
            (sym (none_left html start finish (λ j le' lt. never j le' (ground (arith, e, lt))))))
      | inl e ↦
          let lt : i < finish = ground (arith, e) in
          let fits = color_div-le html i here in
          let room : ltb (length html) (i + length color_div) ≡ false = ground (arith, fits) in
          let from_i : colors_at (finish - start) start html ≡ colors_at (finish - i) i html =
            skip html (i - start) (finish - start) start
              (λ j le' lt' lt''. never j (omega arith) (omega arith))
            ∙ (let a : finish - start - (i - start) ≡ finish - i = omega arith in
                let b : start + (i - start) ≡ i = omega arith in rw (a, b) refl) in
          rw (e, room, ih (i + length color_div) (omega (arith, color_div-long)) fits)
            (ap ok (sym (from_i ∙ next_color html i finish here lt)))
    ]

colors_from-colors_at :
    (fuel : ℕ) (html : Bytes) (start finish : ℕ)
    → start ≤ length html
    → length html < start + fuel
    → colors_from fuel html start finish ≡ ok (colors_at (finish - start) start html)
unfolding colors_from
colors_from-colors_at zero html start finish le h = absurd (omega arith)
colors_from-colors_at (suc fuel) html start finish le h =
    round-colors_at html start finish (λ i. colors_from fuel html i finish) _
      (color_div-IsFound html start)
      (λ i lt le'. colors_from-colors_at fuel html i finish le' (omega arith))

abbrev pub title : Bytes
title = codes "Classy Palette"

abbrev pub last_div : Bytes
last_div = codes "<div class='color-palette js-sr-palette'>"

-- What a page tells: the colours from the title of the palette to the first `last_div` behind it,
-- and none where one of the two is missing.
pub data IsRead (html : Bytes) : List Bytes → Type 0 where
  no_title : IsFound title html 0 none → IsRead html []
  no_end :
      (start : ℕ)
      → IsFound title html 0 (some start)
      → IsFound last_div html start none
      → IsRead html []
  read :
      (start finish : ℕ)
      → IsFound title html 0 (some start)
      → IsFound last_div html start (some finish)
      → IsRead html (colors_at (finish - start) start html)

last_div-IsFound :
    (html : Bytes) (start : ℕ) → IsFound last_div html start (find_from last_div html start)
last_div-IsFound html start =
    let e : last_div ≡ b'<' ∷ drop 1 last_div = unfold codes in refl in
    rw e (find_from-IsFound b'<' (drop 1 last_div) html start)

found-le : (html : Bytes) (start : ℕ) → IsFound title html 0 (some start) → start ≤ length html
found-le html start (first i le here never) =
    let e : title ≡ b'C' ∷ drop 1 title = unfold codes in refl in
    omega (arith, occurs-le b'C' (drop 1 title) html start (rw e at here))

-- `parse_html` returns on every page, with the colours that the page tells: the seven bytes behind
-- each `color_div` that begins between the first title of the palette and the first end of it behind
-- that, in their order, and none where the page has no title, or no end behind it.
pub parse_html-IsRead :
    (html : Bytes) → (colors : List Bytes) × (parse_html html ≡ ok colors) × IsRead html colors
unfolding parse_html
parse_html-IsRead html = elim (Option-cases (find title html)) [
  | inl e ↦ ([], rw (e, parse_html) refl, no_title (rw e at (find-IsFound title html)))
  | inr (start, e) ↦
      let titled : IsFound title html 0 (some start) = rw e at (find-IsFound title html) in
      elim (Option-cases (find_from last_div html start)) [
        | inl f ↦ (
          [],
          rw (e, f, parse_html) refl,
          no_end start titled (rw f at (last_div-IsFound html start)),
        )
        | inr (finish, f) ↦ (
          colors_at (finish - start) start html,
          rw (e, f, parse_html)
              (colors_from-colors_at (suc (length html)) html start finish
                (found-le html start titled) (omega arith)),
          read start finish titled (rw f at (last_div-IsFound html start)),
        )
      ]
]
