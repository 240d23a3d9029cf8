-- ===== src/Session.antt =====
-- `Session` (src/session.cc): the callbacks of the reads and writes of one connection.
pub mod Buffer
pub mod Turns
use server_spring.Base.{
  ℕ, ◌+◌, ◌≤◌, ◌≡◌, Bool, true, false, ◌||◌, List, [], ◌∷◌, ◌++◌, Bytes, length, drop, c_str, ◌==◌,
  Run, ok, undefined, ◌>>=◌, if◌then◌else◌,
}
use server_spring.Http.{Response, Library, Machine, fresh_response}
use server_spring.FileSystem.{FileSystem}
use server_spring.Routes.{Routes}
use server_spring.Delegate.{process_request}

abbrev pub max_length : ℕ
max_length = 1024

-- the asynchronous operation that was begun last, or that `delete this` was reached
pub data Pending : Type 0 where
  reading writing deleted : Pending

-- `data_`, which the constructor does not set, is any array of `max_length` bytes.
pub record Session : Type 0 where
  pub pending : Pending
  pub data_ : Bytes
  pub http_response : Response

-- `start` of a new session
abbrev pub start : Bytes → Session
start data_ = record { pending = reading; data_ = data_; http_response = fresh_response }

-- `async_read_some` puts the bytes of a read at the front of the array.
abbrev pub receive : Bytes → Bytes → Bytes
receive bytes data_ = bytes ++ drop (length bytes) data_

pub has_nul : Bytes → Bool
has_nul [] = false
has_nul (c ∷ s) = c == 0 || has_nul s

-- `data_` as a `std::string`: up to its first NUL; without one, it is read past its end
unfoldable pub read_string : Bytes → Run Bytes
unfolding has_nul
read_string data_ = if has_nul data_ then ok (c_str data_) else undefined

module _ {S : Type 0} (lib : Library) (machine : Machine S) (fs : FileSystem S)
    (routes : Routes) where
  -- the value returned, the session and the state
  -- `endpoint` is the text of `remote_endpoint()`, or what that throws.
  unfoldable pub handle_read : Bool → Run Bytes → Session → S → Run (ℕ × Session × S)
  handle_read error endpoint session s =
      if error then ok (1, record session { pending = deleted }, s) else (do
        request ← read_string session.data_
        client ← endpoint
        (response, s') ← process_request lib machine fs routes request fresh_response s
        ok (0, record session { pending = writing; http_response = response }, s'))

  unfoldable pub handle_write : Bool → Session → ℕ × Session
  handle_write error session =
      if error
      then (1, record session { pending = deleted })
      else (0, record session { pending = reading })

  -- The sessions that the callbacks lead to, each with the number of requests that were read and of
  -- responses that were written.
  pub data Reaches : Session → S → ℕ → ℕ → Type 0 where
    started : (data_ : Bytes) (s : S) → length data_ ≡ max_length → Reaches (start data_) s 0 0
    read_done :
        {session after : Session} {s s' : S} {n m : ℕ} (endpoint : Run Bytes) (bytes : Bytes)
        → Reaches session s n m
        → session.pending ≡ reading
        → length bytes ≤ max_length
        → handle_read false endpoint (record session { data_ = receive bytes session.data_ }) s
          ≡ ok (0, after, s')
        → Reaches after s' (n + 1) m
    read_failed :
        {session after : Session} {s s' : S} {n m : ℕ} (endpoint : Run Bytes)
        → Reaches session s n m
        → session.pending ≡ reading
        → handle_read true endpoint session s ≡ ok (1, after, s')
        → Reaches after s' n m
    write_done :
        {session after : Session} {s : S} {n m : ℕ}
        → Reaches session s n m
        → session.pending ≡ writing
        → handle_write false session ≡ (0, after)
        → Reaches after s n (m + 1)
    write_failed :
        {session after : Session} {s : S} {n m : ℕ}
        → Reaches session s n m
        → session.pending ≡ writing
        → handle_write true session ≡ (1, after)
        → Reaches after s n m
