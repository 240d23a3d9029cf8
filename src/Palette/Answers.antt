-- ===== src/Palette/Answers.antt =====
-- The answers of `PaletteHandler::handle_request`.
use server_spring.Base.{
  ◌≤◌, ◌≡◌, ◌≢◌, ◌↔◌, ◌⊎◌, refl, sym, ◌∙◌, arith, Bool, true, false, not, List, [], ◌∷◌, Bytes,
  codes, equal, length, Option, none, some, ok, inl, inr,
}
use server_spring.Http.{Status, Request, Response, Library, Machine, set_response}
use server_spring.Http.Laws.{set_response-result}
use server_spring.Palette.Input.{trim_whitespace, valid_input, generate_json_response}
use server_spring.Palette.Web.{get_names}
use server_spring.Palette.Handler.{send_palette, handle_palette}
use server_spring.Palette.Safety.{
  Yields, returned, Anything, bind-Yields, if-Yields, json_colors-Yields, get_colors-Yields,
  NamesFor, names_from-Yields,
}

generate_json_response-Yields :
    (colors names : List Bytes)
    → length colors ≤ length names
    → Yields Anything (generate_json_response colors names)
unfolding generate_json_response
generate_json_response-Yields colors names h =
    bind-Yields _ _ (json_colors-Yields colors names 0 (omega (arith, h)))
      (λ written _. returned _ tt)

-- the return value is true exactly at status 200
abbrev pub MatchesStatus : {S : Type 0} → Bool × Response × S → Type 0
MatchesStatus x = (x.0 ≡ true) ↔ (x.1.result ≡ Status.ok)

module _ {S : Type 0} (lib : Library) (machine : Machine S) where
  get_names-Yields :
      (colors : List Bytes) (s : S)
      → Yields (λ x. (x.0 ≡ []) ⊎ (length x.0 ≡ length colors)) (get_names lib machine colors s)
  unfolding get_names
  get_names-Yields colors s =
      bind-Yields _ _ (names_from-Yields lib machine colors s)
        (λ (names, s') h. returned _ (go names h))
    where
      go :
          (names : Option (List Bytes))
          → NamesFor lib machine colors (names, s)
          → ((elim names as (λ x. List Bytes) [ none ↦ [] | some ns ↦ ns ]) ≡ [])
            ⊎ (length (elim names as (λ x. List Bytes) [ none ↦ [] | some ns ↦ ns ])
                ≡ length colors)
      go none h = inl refl
      go (some ns) h = inr h

  succeeds :
      (t b : Bytes) (response : Response) (s : S)
      → Yields MatchesStatus (ok (true, set_response lib Status.ok t b response, s))
  succeeds t b response s =
      returned _ (λ _. set_response-result lib Status.ok t b response, λ _. refl)

  fails :
      (status : Status) (t b : Bytes) (response : Response) (s : S)
      → status ≢ Status.ok
      → Yields MatchesStatus (ok (false, set_response lib status t b response, s))
  fails status t b response s n =
      returned _ (λ e. cc, λ e. absurd (n (sym (set_response-result lib status t b response) ∙ e)))

  send_palette-Yields :
      (colors names : List Bytes) (s : S) (response : Response)
      → (names ≡ []) ⊎ (length names ≡ length colors)
      → Yields MatchesStatus (send_palette lib machine colors names s response)
  unfolding send_palette
  send_palette-Yields [] names s response h = fails _ _ _ response s (λ e. cc)
  send_palette-Yields (c ∷ cs) [] s response h = fails _ _ _ response s (λ e. cc)
  send_palette-Yields (c ∷ cs) (n ∷ ns) s response (inl e) = cc
  send_palette-Yields (c ∷ cs) (n ∷ ns) s response (inr e) =
      bind-Yields _ _ (generate_json_response-Yields (c ∷ cs) (n ∷ ns) (omega (arith, e)))
        (λ body _. succeeds _ body response s)

  -- The palette handler either answers, and then returns true exactly where its response has status
  -- 200, or throws; whatever pages the network gives, it reads no name that is not there, and the
  -- search for colours ends.
  pub handle_palette-Yields :
      (r : Request) (s : S) (response : Response)
      → Yields MatchesStatus (handle_palette lib machine r s response)
  unfolding handle_palette
  handle_palette-Yields r s response =
      if-Yields (not (equal r.method (codes "POST"))) _ _ (λ _. fails _ _ _ response s (λ e. cc))
        (λ _.
          if-Yields (not (valid_input (trim_whitespace r.body))) _ _
            (λ _. fails _ _ _ response s (λ e. cc))
            (λ _.
              bind-Yields _ _ (get_colors-Yields lib machine (trim_whitespace r.body) s)
                (λ (colors, s') _.
                  bind-Yields _ _ (get_names-Yields colors s')
                    (λ (names, s'') h. send_palette-Yields colors names s'' response h))))
