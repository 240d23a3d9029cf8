-- ===== src/Handlers/Files/Sent.antt =====
-- What is sent of a file, on every branch.
use server_spring.Base.{
  ◌+◌, ◌≡◌, refl, ◌∙◌, ap, Bool, true, false, ◌⊎◌, Run, ok, throws, undefined, spent, Exception, [],
  ◌∷◌, ◌++◌, Bytes, codes, length, length-append, Option, none, some, inl, inr,
}
use server_spring.Http.{Status, Response, Library, Machine}
use server_spring.Http.Laws.{
  set_response-result, set_response-body, set_response-content_type, set_response-content_length,
}
use server_spring.MimeTypes.{extension_to_type}
use server_spring.MimeTypes.Laws.{IsTypeOf, extension_to_type-IsTypeOf}
use server_spring.Handlers.Files.{no_file, send_opened, send_file}

-- two runs that fail alike
pub data Fails {A B : Type 0} : Run A → Run B → Type 0 where
  thrown : (e : Exception) → Fails (throws e) (throws e)
  stuck : Fails undefined undefined
  unfinished : Fails spent spent

module _ {S : Type 0} (lib : Library) (machine : Machine S) (path : Bytes) (s : S) where
  -- A file that is there and opens is sent with a line feed behind it, with its length and the type
  -- of its extension; any other is answered with 404. Where the question for the file fails, so does
  -- the run.
  pub data IsSent : Run (Bool × Response) → Type 0 where
    sent :
        (text mime_type : Bytes) (answer : Response)
        → machine.path_exists path s ≡ ok true
        → machine.path_is_regular_file path s ≡ ok true
        → machine.contents path s ≡ some text
        → IsTypeOf (lib.extension path) mime_type
        → answer.result ≡ Status.ok
        → answer.content_type ≡ some mime_type
        → answer.body ≡ text ++ b'\n' ∷ []
        → answer.content_length ≡ some (length text + 1)
        → IsSent (ok (true, answer))
    missing :
        (answer : Response)
        → (machine.path_exists path s ≡ ok false)
          ⊎ ((machine.path_exists path s ≡ ok true)
              × (machine.path_is_regular_file path s ≡ ok false))
        → answer.result ≡ Status.not_found
        → answer.body ≡ codes "File not found\n"
        → IsSent (ok (false, answer))
    closed :
        (answer : Response)
        → machine.path_exists path s ≡ ok true
        → machine.path_is_regular_file path s ≡ ok true
        → machine.contents path s ≡ none
        → answer.result ≡ Status.not_found
        → answer.body ≡ codes "Cannot open file\n"
        → IsSent (ok (false, answer))
    failed :
        (asked : Run Bool) {run : Run (Bool × Response)}
        → (machine.path_exists path s ≡ asked)
          ⊎ ((machine.path_exists path s ≡ ok true) × (machine.path_is_regular_file path s ≡ asked))
        → Fails asked run
        → IsSent run

  opened-IsSent :
      (file : Option Bytes) (response : Response)
      → machine.path_exists path s ≡ ok true
      → machine.path_is_regular_file path s ≡ ok true
      → machine.contents path s ≡ file
      → IsSent (ok (send_opened lib machine path file response))
  unfolding send_opened
  opened-IsSent none response e f c =
      closed _ e f c (set_response-result lib _ _ _ _) (set_response-body lib _ _ _ _)
  opened-IsSent (some text) response e f c =
      sent text (extension_to_type (lib.extension path)) _ e f c (extension_to_type-IsTypeOf _)
        (set_response-result lib _ _ _ _) (set_response-content_type lib _ _ _ _)
        (set_response-body lib _ _ _ _)
        (set_response-content_length lib _ _ _ _ ∙ ap some (length-append text (b'\n' ∷ [])))

  regular-IsSent :
      (response : Response) (regular : Run Bool)
      → machine.path_exists path s ≡ ok true
      → machine.path_is_regular_file path s ≡ regular
      → IsSent (send_file lib machine path s response)
  unfolding send_file no_file
  regular-IsSent response (ok true) e f = rw (e, f) (opened-IsSent _ response e f refl)
  regular-IsSent response (ok false) e f =
      rw (e, f)
        (missing _ (inr (e, f)) (set_response-result lib _ _ _ _) (set_response-body lib _ _ _ _))
  regular-IsSent response (throws x) e f = rw (e, f) (failed (throws x) (inr (e, f)) (thrown x))
  regular-IsSent response undefined e f = rw (e, f) (failed undefined (inr (e, f)) stuck)
  regular-IsSent response spent e f = rw (e, f) (failed spent (inr (e, f)) unfinished)

  there-IsSent :
      (response : Response) (there : Run Bool)
      → machine.path_exists path s ≡ there
      → IsSent (send_file lib machine path s response)
  unfolding send_file no_file
  there-IsSent response (ok true) e =
      regular-IsSent response (machine.path_is_regular_file path s) e refl
  there-IsSent response (ok false) e =
      rw e (missing _ (inl e) (set_response-result lib _ _ _ _) (set_response-body lib _ _ _ _))
  there-IsSent response (throws x) e = rw e (failed (throws x) (inl e) (thrown x))
  there-IsSent response undefined e = rw e (failed undefined (inl e) stuck)
  there-IsSent response spent e = rw e (failed spent (inl e) unfinished)

  pub send_file-IsSent : (response : Response) → IsSent (send_file lib machine path s response)
  send_file-IsSent response = there-IsSent response (machine.path_exists path s) refl
