-- ===== src/Api/Methods.antt =====
-- `handlePost`, `handleGet`, `handlePut`, `handleDelete` and `handle_request` of `ApiHandler`.
use server_spring.Base.{
  zero, Bool, true, false, not, List, [], ◌∷◌, ◌++◌, Bytes, codes, equal, c_str, ◌==◌, length,
  Option, none, some, Run, ok, ◌>>=◌, if◌then◌else◌,
}
use server_spring.Number.{ℤ, negsuc}
use server_spring.Number.Printing.{to_string}
use server_spring.Http.{Status, Request, Response, Library, set_response}
use server_spring.FileSystem.{FileSystem}
use server_spring.Api.Uri.{split, extract_entity, extract_file_name, is_file_number}

-- the return value, the response, and the state of the file system
abbrev pub Answer : Type 0 → Type 0
Answer S = Run (Bool × Response × S)

-- `data_path_ + "/" + entity`, and a file in it
unfoldable pub below : Bytes → Bytes → Bytes
below path name = path ++ (b'/' ∷ name)

module _ {S : Type 0} (lib : Library) (fs : FileSystem S) (data_path : Bytes)
    (response : Response) where
  abbrev pub answer : Bool → Status → Bytes → S → Answer S
  answer success status body s =
      ok (success, set_response lib status (codes "text/plain") body response, s)

  abbrev pub json_id : Bytes → Bytes
  json_id id = codes "{\"id\": " ++ (id ++ codes "}")

  -- `created_file_id == -1` is an error
  abbrev pub report_id : ℤ → S → Answer S
  report_id (negsuc zero) s =
      answer false Status.internal_server_error (codes "Unable to generate ID.") s
  report_id id s = answer true Status.ok (json_id (to_string id)) s

  unfoldable pub handle_post : List Bytes → Request → S → Answer S
  handle_post uri r s =
      if not (length uri == 1)
      then answer false Status.bad_request (codes "Not a valid API request target for POST\n") s
      else (do
        entity ← extract_entity uri
        (created_file_id, s') ← fs.gen_id_and_write_file (below data_path entity) r.body s
        report_id created_file_id s')

  abbrev pub report_contents : Option Bytes → S → Answer S
  report_contents none s = answer false Status.bad_request (codes "Requested ID does not exist\n") s
  report_contents (some file_contents) s = answer true Status.ok file_contents s

  -- behind the check that the directory exists
  unfoldable pub handle_found : Bytes → List Bytes → S → Answer S
  handle_found path (entity ∷ []) s = do
    json_list ← fs.get_file_list path s
    answer true Status.ok json_list s
  handle_found path (entity ∷ file_name ∷ []) s = do
    file ← fs.read_file (below path file_name) s
    report_contents file s
  handle_found path _ s =
      answer false Status.bad_request (codes "Not a valid API request target for GET\n") s

  unfoldable pub handle_get : List Bytes → S → Answer S
  unfolding handle_found
  handle_get uri s = do
    entity ← extract_entity uri
    there ← fs.exists (below data_path entity) s
    if not there
        then answer false Status.bad_request (codes "Invalid entity requested\n") s
        else handle_found (below data_path entity) uri s

  unfoldable pub handle_delete : List Bytes → S → Answer S
  handle_delete uri s =
      if not (length uri == 2)
      then answer false Status.bad_request (codes "Not a valid API request target for DELETE\n") s
      else (do
        entity ← extract_entity uri
        name ← extract_file_name uri
        there ← fs.is_regular_file (below (below data_path entity) name) s
        if not there
            then answer false Status.bad_request (codes "Requested ID does not exist.\n") s
            else (do
              (removed, s') ← fs.remove (below (below data_path entity) name) s
              if not removed
                  then answer false Status.bad_request (codes "Could not delete requested ID\n") s'
                  else answer true Status.ok (codes "Successfully deleted ID\n") s'))

  unfoldable pub handle_put : List Bytes → Request → S → Answer S
  handle_put uri r s =
      if not (length uri == 2)
      then answer false Status.bad_request (codes "Not a valid API request target for PUT\n") s
      else (do
        entity ← extract_entity uri
        name ← extract_file_name uri
        (write_success, s') ← fs.write_file (below (below data_path entity) name) r.body s
        if write_success
            then answer true Status.ok (json_id name) s'
            else answer false Status.internal_server_error (codes "Unable to write to ID.") s')

  -- by the method
  unfoldable pub dispatch : List Bytes → Request → S → Answer S
  dispatch uri r s =
      if equal r.method (codes "POST")
      then handle_post uri r s
      else if equal r.method (codes "GET")
      then handle_get uri s
      else if equal r.method (codes "PUT")
      then handle_put uri r s
      else if equal r.method (codes "DELETE")
      then handle_delete uri s
      else answer false Status.bad_request (codes "Invalid HTTP method\n") s

  unfoldable pub handle_api : Request → S → Answer S
  unfolding dispatch
  handle_api r s = do
    uri ← split (c_str r.target) b'/'
    if not (is_file_number uri)
        then answer false Status.bad_request (codes "Requested file must be a number\n") s
        else dispatch uri r s
