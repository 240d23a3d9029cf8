-- ===== src/Http/Laws.antt =====
-- The fields of a response after `set_response`.
use server_spring.Base.{◌≡◌, Bytes, length, some}
use server_spring.Http.{Status, Response, Library, set_response}

module _ (lib : Library) (status : Status) (content_type body : Bytes) (r : Response) where
  pub set_response-result : (set_response lib status content_type body r).result ≡ status
  unfolding set_response
  set_response-result = rw (lib.prepare_payload_lem _)

  pub set_response-body : (set_response lib status content_type body r).body ≡ body
  unfolding set_response
  set_response-body = rw (lib.prepare_payload_lem _)

  pub set_response-content_type :
      (set_response lib status content_type body r).content_type ≡ some content_type
  unfolding set_response
  set_response-content_type = rw (lib.prepare_payload_lem _)

  pub set_response-content_length :
      (set_response lib status content_type body r).content_length ≡ some (length body)
  unfolding set_response
  set_response-content_length = rw (lib.prepare_payload_lem _)
