-- ===== src/Api/Lifecycle.antt =====
-- A file of the API handler that is written, read and removed, over any file system that keeps its
-- files.
use server_spring.Base.{
  ℕ, List, [], ◌∷◌, ◌++◌, c_str, inl, inr, ◌≡◌, sym, ap, ◌∙◌, Bool, true, false, Bytes, codes, ok,
}
use server_spring.Http.{set_response, Status, Response, Library}
use server_spring.FileSystem.{FileSystem}
use server_spring.Api.Uri.{split, is_file_number}
use server_spring.Api.Uri.Parts.{split-append, c_str-append_digits, IsDigits-is_number}
use server_spring.Number.Printing.{to_string, decimal, decimal-IsDigits, decimal-ne-nil}
use server_spring.Api.Methods.{json_id, answer, below, handle_get, handle_api}
use server_spring.Api.Store.{StoreLaws}
use server_spring.Api.Answered.{
  handle_post-created, post_lem, request, handle_api-passed, handle_put-wrote,
  handle_delete-removed, put_lem, delete_lem, handle_api-get, handle_get-there, handle_get-gone,
}

module _ {S : Type 0} (lib : Library) (fs : FileSystem S) (data_path : Bytes)
    (response : Response) where
  -- what a GET of the target answers in a state, which stays: the value returned, the status, a text
  abbrev pub Gets : Bytes → S → Bool → Status → Bytes → Type 0
  Gets target s success status text =
      (body : Bytes)
      → handle_api lib fs data_path response (request (codes "GET") target body) s
        ≡ answer lib fs data_path response success status text s

  -- the parts of a target with a number behind it
  numbered_target :
      (target : Bytes) (uri : List Bytes) (entity : Bytes) (n : ℕ)
      → split (c_str target) b'/' ≡ ok uri
      → uri ≡ entity ∷ []
      → split (c_str (c_str target ++ (b'/' ∷ decimal n))) b'/' ≡ ok (entity ∷ decimal n ∷ [])
  numbered_target target uri entity n e one =
      ap (λ t. split t b'/') (c_str-append_digits target (decimal n) (decimal-IsDigits n))
      ∙ split-append (c_str target) uri (decimal n) e (decimal-IsDigits n) (decimal-ne-nil n)
      ∙ ap (λ u. ok (u ++ decimal n ∷ [])) one

  module _ (laws : StoreLaws fs) (target body : Bytes) (s s' : S) (answered : Response) where
    -- Over any file system that keeps its files, in a valid state: after a PUT that was answered with success, every GET of its target succeeds, with status 200
    -- and what the file system keeps of the body of the PUT, and leaves the state.
    pub put-get :
        laws.IsValid s
        → handle_api lib fs data_path response (request (codes "PUT") target body) s
          ≡ ok (true, answered, s')
        → laws.IsValid s' × Gets target s' true Status.ok (laws.kept body)
    unfolding is_file_number
    put-get valid h =
        let (uri, e, number, h1) =
          handle_api-passed lib fs data_path response (request (codes "PUT") target body) s s'
            answered h in
        let (entity, name, two, wrote) =
          handle_put-wrote lib fs data_path response uri (request (codes "PUT") target body) s s'
            answered (sym (put_lem lib fs data_path response uri target body s) ∙ h1) in
        let (valid', there, read) =
          laws.write_file_lem (below data_path entity) name body s s'
            (ap is_file_number (sym two) ∙ number) valid wrote in
        (
          valid',
          λ b.
              handle_api-get lib fs data_path response uri target b s' e number
              ∙ ap (λ u. handle_get lib fs data_path response u s') two
              ∙ handle_get-there lib fs data_path response entity name (laws.kept body) s' there
                  read,
        )

    -- Over any file system that keeps its files, in a valid state: after a DELETE that was answered with success, every GET of its target fails with status 400,
    -- and leaves the state.
    pub delete-get :
        laws.IsValid s
        → handle_api lib fs data_path response (request (codes "DELETE") target body) s
          ≡ ok (true, answered, s')
        → laws.IsValid s' × (text : Bytes) × Gets target s' false Status.bad_request text
    delete-get valid h =
        let (uri, e, number, h1) =
          handle_api-passed lib fs data_path response (request (codes "DELETE") target body) s s'
            answered h in
        let (entity, name, two, removed) =
          handle_delete-removed lib fs data_path response uri s s' answered
            (sym (delete_lem lib fs data_path response uri target body s) ∙ h1) in
        let (valid', gone) =
          laws.remove_lem (below (below data_path entity) name) s s' valid removed in
        let (there, asked) = laws.exists_lem (below data_path entity) s' valid' in
        let (text, get) =
          handle_get-gone lib fs data_path response entity name s' there asked gone in
        (
          valid',
          text,
          λ b.
              handle_api-get lib fs data_path response uri target b s' e number
              ∙ ap (λ u. handle_get lib fs data_path response u s') two
              ∙ get,
        )

    -- Over any file system that keeps its files, in a valid state: after a POST that was answered with success, the answer gives a number, every GET of the target
    -- with that number behind it succeeds, with status 200 and what the file system keeps of the
    -- body of the POST, and leaves the state.
    pub post-get :
        laws.IsValid s
        → handle_api lib fs data_path response (request (codes "POST") target body) s
          ≡ ok (true, answered, s')
        → (n : ℕ) × (answered
            ≡ set_response lib Status.ok
                (codes "text/plain")
                (json_id lib fs data_path response (decimal n))
                response)
          × laws.IsValid s'
          × Gets (c_str target ++ (b'/' ∷ decimal n)) s' true Status.ok (laws.kept body)
    unfolding to_string is_file_number
    post-get valid h =
        let r = request (codes "POST") target body in
        let (uri, e, number, h1) = handle_api-passed lib fs data_path response r s s' answered h in
        let (entity, id, one, made, id_ne, told) =
          handle_post-created lib fs data_path response uri r s s' answered
            (sym (post_lem lib fs data_path response uri target body s) ∙ h1) in
        elim (laws.gen_id_and_write_file_lem (below data_path entity) body s s' id valid made) [
          | inl bad ↦ absurd (id_ne bad)
          | inr (n, is_n, valid', there, read) ↦ (
            n,
            told
                ∙ ap
                    (λ i.
                      set_response lib Status.ok (codes "text/plain")
                        (json_id lib fs data_path response (to_string i)) response)
                    is_n,
            valid',
            λ b.
                handle_api-get lib fs data_path response (entity ∷ decimal n ∷ [])
                  (c_str target ++ (b'/' ∷ decimal n)) b s'
                  (numbered_target target uri entity n e one)
                  (IsDigits-is_number (decimal n) (decimal-IsDigits n) (decimal-ne-nil n))
                ∙ handle_get-there lib fs data_path response entity (decimal n) (laws.kept body) s'
                    there read,
          )
        ]
