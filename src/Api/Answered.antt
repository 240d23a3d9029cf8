-- ===== src/Api/Answered.antt =====
-- What a PUT or a DELETE has done that was answered with success, and what a GET then finds.
use server_spring.Base.{
  zero, suc, sym, ◌≡◌, ◌≢◌, refl, ap, ◌∙◌, arith, Bool, true, false, not, List, [], ◌∷◌, Bytes,
  codes, equal, c_str, ◌==◌, length, none, some, Run, ok, >>=-eq-ok, ok-injective, if◌then◌else◌,
}
use server_spring.Http.{set_response, Status, Request, Response, Library}
use server_spring.Number.{ℤ, pos, negsuc}
use server_spring.Number.Printing.{to_string}
use server_spring.FileSystem.{FileSystem}
use server_spring.Api.Uri.{split, extract_entity, extract_file_name, is_file_number}
use server_spring.Api.Methods.{
  report_id, json_id, handle_post, Answer, answer, below, handle_get, handle_found, handle_put,
  handle_delete, dispatch, handle_api,
}

abbrev pub request : Bytes → Bytes → Bytes → Request
request method target body = record { method = method; target = target; body = body }

two_parts :
    (uri : List Bytes) (entity name : Bytes)
    → not (length uri == 2) ≡ false
    → extract_entity uri ≡ ok entity
    → extract_file_name uri ≡ ok name
    → uri ≡ entity ∷ name ∷ []
two_parts [] entity name two e e' = ground (arith, two)
two_parts (a ∷ []) entity name two e e' = ground (arith, two)
two_parts (a ∷ b ∷ []) entity name two e e' = ground (arith, e, e')
two_parts (a ∷ b ∷ c ∷ uri) entity name two e e' = ground (arith, two)

one_part :
    (uri : List Bytes) (entity : Bytes)
    → not (length uri == 1) ≡ false
    → extract_entity uri ≡ ok entity
    → uri ≡ entity ∷ []
one_part [] entity one e = ground (arith, one)
one_part (a ∷ []) entity one e = ground (arith, e)
one_part (a ∷ b ∷ uri) entity one e = ground (arith, one)

module _ {S : Type 0} (lib : Library) (fs : FileSystem S) (data_path : Bytes)
    (response : Response) where
  -- the path of the second part of a target below the first
  abbrev pub file_of : Bytes → Bytes → Bytes
  file_of entity name = below (below data_path entity) name

  refuses :
      (status : Status) (body : Bytes) (s s' : S) (answered : Response)
      → answer lib fs data_path response false status body s ≢ ok (true, answered, s')
  refuses status body s s' answered h =
      let e = ap (λ (x : Bool × Response × S). x.0) (ok-injective h) in cc

  -- a guard that was passed
  if-passed :
      (b : Bool) (status : Status) (body : Bytes) (rest : Answer S) (s s' : S) (answered : Response)
      → (if b then answer lib fs data_path response false status body s else rest)
        ≡ ok (true, answered, s')
      → (b ≡ false) × (rest ≡ ok (true, answered, s'))
  if-passed true status body rest s s' answered h = absurd (refuses status body s s' answered h)
  if-passed false status body rest s s' answered h = (refl, h)

  if-success :
      (success : Bool) (good bad : Bytes) (status : Status) (after s' : S) (answered : Response)
      → (if success
          then answer lib fs data_path response true Status.ok good after
          else answer lib fs data_path response false status bad after)
        ≡ ok (true, answered, s')
      → ◌≡◌ {A = Run (Bool × S)} (ok (success, after)) (ok (true, s'))
  if-success true good bad status after s' answered h =
      ap (λ (x : Bool × Response × S). ok (true, x.2)) (ok-injective h)
  if-success false good bad status after s' answered h =
      absurd (refuses status bad after s' answered h)

  if-removed :
      (removed : Bool) (good bad : Bytes) (after s' : S) (answered : Response)
      → (if not removed
          then answer lib fs data_path response false Status.bad_request bad after
          else answer lib fs data_path response true Status.ok good after)
        ≡ ok (true, answered, s')
      → ◌≡◌ {A = Run (Bool × S)} (ok (removed, after)) (ok (true, s'))
  if-removed true good bad after s' answered h =
      if-success true good bad Status.bad_request after s' answered h
  if-removed false good bad after s' answered h =
      absurd (refuses Status.bad_request bad after s' answered h)

  -- the answer to a file that got the number of `id`
  report_id-number :
      (id : ℤ) (s s' : S) (answered : Response)
      → report_id lib fs data_path response id s ≡ ok (true, answered, s')
      → (id ≢ negsuc 0)
        × (answer lib fs data_path response true Status.ok
              (json_id lib fs data_path response (to_string id))
              s
            ≡ ok (true, answered, s'))
  report_id-number (negsuc zero) s s' answered h = absurd (refuses _ _ s s' answered h)
  report_id-number (negsuc (suc n)) s s' answered h = (λ e. ground (arith, e), h)
  report_id-number (pos n) s s' answered h = (λ e. cc, h)

  pub handle_post-created :
      (uri : List Bytes) (r : Request) (s s' : S) (answered : Response)
      → handle_post lib fs data_path response uri r s ≡ ok (true, answered, s')
      → (entity : Bytes) × (id : ℤ) × (uri ≡ entity ∷ [])
        × (fs.gen_id_and_write_file (below data_path entity) r.body s ≡ ok (id, s'))
        × (id ≢ negsuc 0)
        × (answered
            ≡ set_response lib Status.ok
                (codes "text/plain")
                (json_id lib fs data_path response (to_string id))
                response)
  unfolding handle_post
  handle_post-created uri r s s' answered h =
      let (one, h1) = if-passed (not (length uri == 1)) _ _ _ s s' answered h in
      let (entity, e, h2) = >>=-eq-ok (extract_entity uri) _ h1 in
      let ((id, after), made, h3) =
        >>=-eq-ok (fs.gen_id_and_write_file (below data_path entity) r.body s) _ h2 in
      let (number, h4) = report_id-number id after s' answered h3 in
      let same = ok-injective h4 in
      (
        entity,
        id,
        one_part uri entity one e,
        made ∙ ap (λ (x : Bool × Response × S). ok (id, x.2)) same,
        number,
        sym (ap (λ (x : Bool × Response × S). x.1) same),
      )

  pub handle_put-wrote :
      (uri : List Bytes) (r : Request) (s s' : S) (answered : Response)
      → handle_put lib fs data_path response uri r s ≡ ok (true, answered, s')
      → (entity : Bytes) × (name : Bytes) × (uri ≡ entity ∷ name ∷ [])
        × (fs.write_file (file_of entity name) r.body s ≡ ok (true, s'))
  unfolding handle_put
  handle_put-wrote uri r s s' answered h =
      let (two, h1) = if-passed (not (length uri == 2)) _ _ _ s s' answered h in
      let (entity, e, h2) = >>=-eq-ok (extract_entity uri) _ h1 in
      let (name, e', h3) = >>=-eq-ok (extract_file_name uri) _ h2 in
      let ((success, after), wrote, h4) =
        >>=-eq-ok (fs.write_file (file_of entity name) r.body s) _ h3 in
      (
        entity,
        name,
        two_parts uri entity name two e e',
        wrote ∙ if-success success _ _ _ after s' answered h4,
      )

  pub handle_delete-removed :
      (uri : List Bytes) (s s' : S) (answered : Response)
      → handle_delete lib fs data_path response uri s ≡ ok (true, answered, s')
      → (entity : Bytes) × (name : Bytes) × (uri ≡ entity ∷ name ∷ [])
        × (fs.remove (file_of entity name) s ≡ ok (true, s'))
  unfolding handle_delete
  handle_delete-removed uri s s' answered h =
      let (two, h1) = if-passed (not (length uri == 2)) _ _ _ s s' answered h in
      let (entity, e, h2) = >>=-eq-ok (extract_entity uri) _ h1 in
      let (name, e', h3) = >>=-eq-ok (extract_file_name uri) _ h2 in
      let (regular, _, h3') = >>=-eq-ok (fs.is_regular_file (file_of entity name) s) _ h3 in
      let (there, h4) = if-passed (not regular) _ _ _ s s' answered h3' in
      let ((removed, after), gone, h5) = >>=-eq-ok (fs.remove (file_of entity name) s) _ h4 in
      (
        entity,
        name,
        two_parts uri entity name two e e',
        gone ∙ if-removed removed _ _ after s' answered h5,
      )

  pub handle_get-there :
      (entity name text : Bytes) (s : S)
      → fs.exists (below data_path entity) s ≡ ok true
      → fs.read_file (file_of entity name) s ≡ ok (some text)
      → handle_get lib fs data_path response (entity ∷ name ∷ []) s
        ≡ answer lib fs data_path response true Status.ok text s
  unfolding handle_get handle_found
  handle_get-there entity name text s e f = rw (e, f) refl

  pub handle_get-gone :
      (entity name : Bytes) (s : S) (there : Bool)
      → fs.exists (below data_path entity) s ≡ ok there
      → fs.read_file (file_of entity name) s ≡ ok none
      → (body : Bytes) × (handle_get lib fs data_path response (entity ∷ name ∷ []) s
          ≡ answer lib fs data_path response false Status.bad_request body s)
  unfolding handle_get handle_found
  handle_get-gone entity name s true e f = (codes "Requested ID does not exist\n", rw (e, f) refl)
  handle_get-gone entity name s false e f = (codes "Invalid entity requested\n", rw e refl)

  pub handle_api-passed :
      (r : Request) (s s' : S) (answered : Response)
      → handle_api lib fs data_path response r s ≡ ok (true, answered, s')
      → (uri : List Bytes) × (split (c_str r.target) b'/' ≡ ok uri)
        × (is_file_number uri ≡ true)
        × (dispatch lib fs data_path response uri r s ≡ ok (true, answered, s'))
  unfolding handle_api
  handle_api-passed r s s' answered h =
      let (uri, e, h1) = >>=-eq-ok (split (c_str r.target) b'/') _ h in
      let (number, h2) = if-passed (not (is_file_number uri)) _ _ _ s s' answered h1 in
      (uri, e, ground (arith, number), h2)

  pub handle_api-get :
      (uri : List Bytes) (target body : Bytes) (s : S)
      → split (c_str target) b'/' ≡ ok uri
      → is_file_number uri ≡ true
      → handle_api lib fs data_path response (request (codes "GET") target body) s
        ≡ handle_get lib fs data_path response uri s
  unfolding handle_api dispatch codes equal
  handle_api-get uri target body s e number = rw (e, number) refl

  pub put_lem :
      (uri : List Bytes) (target body : Bytes) (s : S)
      → dispatch lib fs data_path response uri (request (codes "PUT") target body) s
        ≡ handle_put lib fs data_path response uri (request (codes "PUT") target body) s
  unfolding dispatch codes equal
  put_lem uri target body s = refl

  pub post_lem :
      (uri : List Bytes) (target body : Bytes) (s : S)
      → dispatch lib fs data_path response uri (request (codes "POST") target body) s
        ≡ handle_post lib fs data_path response uri (request (codes "POST") target body) s
  unfolding dispatch codes equal
  post_lem uri target body s = refl

  pub delete_lem :
      (uri : List Bytes) (target body : Bytes) (s : S)
      → dispatch lib fs data_path response uri (request (codes "DELETE") target body) s
        ≡ handle_delete lib fs data_path response uri s
  unfolding dispatch codes equal
  delete_lem uri target body s = refl
