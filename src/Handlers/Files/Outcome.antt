-- ===== src/Handlers/Files/Outcome.antt =====
-- The status of a file that is sent.
use server_spring.Base.{
  ◌≡◌, ◌↔◌, refl, sym, ◌∙◌, Bool, true, false, subst, ok, >>=-eq-ok, ok-injective, Bytes, Option,
  none, some, if◌then◌else◌,
}
use server_spring.Http.{Status, Response, Library, Machine, set_response}
use server_spring.Http.Laws.{set_response-result}
use server_spring.Handlers.Files.{no_file, send_opened, send_file}

-- the value returned is true exactly at status 200
abbrev pub IsMatching : Bool × Response → Type 0
IsMatching x = (x.0 ≡ true) ↔ (x.1.result ≡ Status.ok)

module _ (lib : Library) (content_type body : Bytes) (response : Response) where
  pub good-IsMatching : IsMatching (true, set_response lib Status.ok content_type body response)
  good-IsMatching = (λ e. set_response-result lib Status.ok content_type body response, λ e. refl)

  pub missing-IsMatching :
      IsMatching (false, set_response lib Status.not_found content_type body response)
  missing-IsMatching = (
    λ e. cc,
    λ e. absurd cc (sym (set_response-result lib Status.not_found content_type body response) ∙ e),
  )

module _ {S : Type 0} (lib : Library) (machine : Machine S) where
  send_opened-IsMatching :
      (path : Bytes) (file : Option Bytes) (response : Response)
      → IsMatching (send_opened lib machine path file response)
  unfolding send_opened
  send_opened-IsMatching path none response = missing-IsMatching lib _ _ response
  send_opened-IsMatching path (some body) response = good-IsMatching lib _ _ response

  if-IsMatching :
      (b : Bool) (x y : Bool × Response)
      → IsMatching x
      → IsMatching y
      → IsMatching (if b then x else y)
  if-IsMatching true x y h k = h
  if-IsMatching false x y h k = k

  -- where an answer is given
  pub send_file-IsMatching :
      (path : Bytes) (s : S) (response : Response) (x : Bool × Response)
      → send_file lib machine path s response ≡ ok x
      → IsMatching x
  unfolding send_file
  send_file-IsMatching path s response x h =
      let (absent, _, e) = >>=-eq-ok (no_file lib machine path s) _ h in
      subst IsMatching (ok-injective e) (
        if-IsMatching absent _ _ (missing-IsMatching lib _ _ response)
          (send_opened-IsMatching path (machine.contents path s) response))
