-- ===== src/Connections.antt =====
-- The accept loop (src/server.cc) and the sessions that it starts (src/session.cc), over one state
-- of the machine: the callbacks of the program in any order in which they can complete. A callback
-- is one step. One that throws, or whose behaviour is undefined, has no step: an exception leaves
-- `io_service::run` in a thread of the pool, and ends the program.
pub mod Invariant
pub mod Crash
use server_spring.Base.{
  update, ℕ, ◌+◌, ◌≤◌, ◌≡◌, ◌≢◌, true, false, List, [], ◌∷◌, Bytes, length, some, Run, ok,
}
use server_spring.Http.{Library, Machine}
use server_spring.FileSystem.{FileSystem}
use server_spring.Routes.{Routes}
use server_spring.Server.{Fate, started, deleted, Server, handle_accept, construct}
use server_spring.Session.{
  max_length, reading, writing, Session, start, receive, handle_read, handle_write,
}

-- a session, with the numbers of requests that it read and of responses that it wrote
pub record Connection : Type 0 where
  pub session : Session
  pub requests : ℕ
  pub responses : ℕ

-- The object of a session is in `connections` from its `start` on.
pub record System (S : Type 0) : Type 0 where
  pub server : Server
  pub connections : ℕ → Connection
  pub state : S

-- the object when a read has put its bytes into the array
abbrev pub filled : Bytes → Connection → Session
filled bytes c = record c.session { data_ = receive bytes c.session.data_ }

abbrev pub after_read : Session → Connection → Connection
after_read session c = record c { session = session; requests = c.requests + 1 }

abbrev pub after_write : Session → Connection → Connection
after_write session c = record c { session = session; responses = c.responses + 1 }

abbrev pub after_failure : Session → Connection → Connection
after_failure session c = record c { session = session }

-- `delete this` of a session
abbrev pub delete_session : ℕ → Server → Server
delete_session i server = record server { sessions = update server.sessions i (some deleted) }

module _ {S : Type 0} (lib : Library) (machine : Machine S) (fs : FileSystem S)
    (routes : Routes) where
  pub data Step (s : System S) : System S → Type 0 where
    accept :
        (id : ℕ) (rest : List ℕ) (data_ : Bytes)
        → s.server.pending ≡ id ∷ rest
        → length data_ ≡ max_length
        → Step s (record s {
          server = handle_accept id false (record s.server { pending = rest });
          connections =
              update s.connections id
                (record { session = start data_; requests = 0; responses = 0 });
        })
    accept_fails :
        (id : ℕ) (rest : List ℕ)
        → s.server.pending ≡ id ∷ rest
        → Step s (record s { server = handle_accept id true (record s.server { pending = rest }) })
    read :
        (i : ℕ) (endpoint : Run Bytes) (bytes : Bytes) {after : Session} {state : S}
        → s.server.sessions i ≡ some started
        → (s.connections i).session.pending ≡ reading
        → length bytes ≤ max_length
        → handle_read lib machine fs routes false endpoint (filled bytes (s.connections i)) s.state
          ≡ ok (0, after, state)
        → Step s (record s {
          connections = update s.connections i (after_read after (s.connections i));
          state = state;
        })
    read_fails :
        (i : ℕ) (endpoint : Run Bytes) {after : Session} {state : S}
        → s.server.sessions i ≡ some started
        → (s.connections i).session.pending ≡ reading
        → handle_read lib machine fs routes true endpoint (s.connections i).session s.state
          ≡ ok (1, after, state)
        → Step s (record s {
          server = delete_session i s.server;
          connections = update s.connections i (after_failure after (s.connections i));
          state = state;
        })
    write :
        (i : ℕ) {after : Session}
        → s.server.sessions i ≡ some started
        → (s.connections i).session.pending ≡ writing
        → handle_write lib machine fs routes false (s.connections i).session ≡ (0, after)
        → Step s (record s {
          connections = update s.connections i (after_write after (s.connections i));
        })
    write_fails :
        (i : ℕ) {after : Session}
        → s.server.sessions i ≡ some started
        → (s.connections i).session.pending ≡ writing
        → handle_write lib machine fs routes true (s.connections i).session ≡ (1, after)
        → Step s (record s {
          server = delete_session i s.server;
          connections = update s.connections i (after_failure after (s.connections i));
        })

  -- a read whose callback does not return: it throws, or its behaviour is undefined
  pub data Crashes (s : System S) : Type 0 where
    read_crashes :
        (i : ℕ) (endpoint : Run Bytes) (bytes : Bytes)
        → s.server.sessions i ≡ some started
        → (s.connections i).session.pending ≡ reading
        → length bytes ≤ max_length
        → ((x : ℕ × Session × S)
            → handle_read lib machine fs routes false endpoint
                (filled bytes (s.connections i))
                s.state
              ≢ ok x)
        → Crashes s

  -- From the constructor of the server on; `connections` holds no session yet.
  pub data Reach (state : S) : System S → Type 0 where
    begun :
        (connections : ℕ → Connection)
        → Reach state (record { server = construct; connections = connections; state = state })
    later : {s t : System S} → Reach state s → Step s t → Reach state t
