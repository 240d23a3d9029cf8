-- ===== src/Examples/Lifecycles.antt =====
-- A file that is put, read and removed by way of the API handler, on the fake file system.
use server_spring.Base.{◌≡◌, ℕ, ◌∷◌, ◌++◌, refl, true, false, Bytes, codes, c_str, equal, ok}
use server_spring.Number.{is_digit, stoi}
use server_spring.Number.Printing.{to_string, decimal, decimal_from}
use server_spring.Http.{set_response, Status, Response, fresh_response}
use server_spring.StdMap.{find, insert, alter, less, erase}
use server_spring.FileSystem.{FileSystem}
use server_spring.FileSystem.Fake.{
  file_path, gen_id_and_write_file, Paths, fake_file_system, split_last, split_at_slash, exists,
  create_directory, with_directory, write_file, remove, is_regular_file,
}
use server_spring.FileSystem.Fake.Ids.{split_last-append}
use server_spring.Api.Uri.{split, is_number, is_file_number, is_number-IsDigits}
use server_spring.Api.Methods.{
  json_id, handle_post, below, handle_put, handle_delete, dispatch, handle_api,
}
use server_spring.Api.Store.{StoreLaws, fake_store}
use server_spring.Api.Lifecycle.{Gets, post-get, put-get, delete-get}
use server_spring.Examples.Files.{seven, seven-IsSorted}
use server_spring.Examples.Requests.{lib}

abbrev parent_path : Bytes → Bytes
parent_path p = (split_last p).0

abbrev fs : FileSystem Paths
fs = fake_file_system parent_path

parent_path-below :
    (directory name : Bytes)
    → is_number name ≡ true
    → parent_path (below directory name) ≡ directory
unfolding below
parent_path-below directory name h = split_last-append directory name (is_number-IsDigits name h)

abbrev laws : StoreLaws fs
laws = fake_store parent_path parent_path-below

abbrev target : Bytes
target = codes "/api/d/7"

-- the answer to a PUT of the file, and the state behind it
abbrev put :
    (answered : Response) × (s : Paths) × (handle_api lib fs
        (codes ".")
        fresh_response
        (record { method = codes "PUT"; target = target; body = codes "x" })
        seven
      ≡ ok (true, answered, s))
unfolding handle_api dispatch handle_put split is_file_number is_number codes equal c_str below
    write_file with_directory exists create_directory find insert alter less is_digit split_last
    split_at_slash
put = (_, _, refl)

put-get_example :
    laws.IsValid put.1
    × Gets lib fs (codes ".") fresh_response target put.1 true Status.ok (laws.kept (codes "x"))
put-get_example =
    put-get lib fs (codes ".") fresh_response laws target (codes "x") seven put.1 put.0
      seven-IsSorted put.2

-- a DELETE of the file in that state
abbrev deleted :
    (answered : Response) × (s : Paths) × (handle_api lib fs
        (codes ".")
        fresh_response
        (record { method = codes "DELETE"; target = target; body = codes "" })
        put.1
      ≡ ok (true, answered, s))
unfolding handle_api dispatch handle_put handle_delete split is_file_number is_number codes equal
    c_str below write_file with_directory exists create_directory remove is_regular_file find insert
    alter erase less is_digit split_last split_at_slash
deleted = (_, _, refl)

delete-get_example :
    laws.IsValid deleted.1
    × (text : Bytes) × Gets lib fs
        (codes ".")
        fresh_response
        target
        deleted.1
        false
        Status.bad_request
        text
delete-get_example =
    delete-get lib fs (codes ".") fresh_response laws target (codes "") put.1 deleted.1 deleted.0
      (put-get lib fs (codes ".") fresh_response laws target (codes "x") seven put.1 put.0
        seven-IsSorted put.2).0
      deleted.2

-- the answer to a POST of a file, and the state behind it
abbrev post :
    (answered : Response) × (s : Paths) × (handle_api lib fs
        (codes ".")
        fresh_response
        (record { method = codes "POST"; target = codes "/api/d"; body = codes "x" })
        seven
      ≡ ok (true, answered, s))
unfolding handle_api dispatch handle_post split is_file_number codes equal c_str below
    gen_id_and_write_file with_directory exists create_directory find insert alter less is_digit
    split_last split_at_slash stoi decimal decimal_from to_string file_path
post = (_, _, refl)

post-get_example :
    (n : ℕ) × (post.0
      ≡ set_response lib Status.ok
          (codes "text/plain")
          (json_id lib fs (codes ".") fresh_response (decimal n))
          fresh_response)
    × laws.IsValid post.1
    × Gets lib fs
        (codes ".")
        fresh_response
        (c_str (codes "/api/d") ++ (b'/' ∷ decimal n))
        post.1
        true
        Status.ok
        (laws.kept (codes "x"))
post-get_example =
    post-get lib fs (codes ".") fresh_response laws (codes "/api/d") (codes "x") seven post.1 post.0
      seven-IsSorted post.2
