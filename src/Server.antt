-- ===== src/Server.antt =====
-- The accept loop of the server (`start_accept`, `handle_accept` and `run`, src/server.cc) and the
-- sessions that it makes, each the number of its `new`.
pub mod Accepting
use server_spring.Base.{
  update, ℕ, zero, suc, ◌+◌, Bool, List, [], ◌∷◌, Option, none, some, if◌then◌else◌,
}

-- what became of a session: its socket waits for a connection, `start` was called on it, or it was
-- deleted
pub data Fate : Type 0 where
  waiting : Fate
  started : Fate
  deleted : Fate

-- The sessions of the heap, the number of the next, and those that an `async_accept` of the acceptor
-- has not handed back.
pub record Server : Type 0 where
  pub sessions : ℕ → Option Fate
  pub next : ℕ
  pub pending : List ℕ

unfoldable pub start_accept : Server → Server
start_accept s = record {
  sessions = update s.sessions s.next (some waiting);
  next = s.next + 1;
  pending = s.next ∷ s.pending;
}

unfoldable pub handle_accept : ℕ → Bool → Server → Server
unfolding start_accept
handle_accept new_session error s = start_accept (record s {
  sessions = update s.sessions new_session (some (if error then deleted else started));
})

-- `Server`, once its map is made
unfoldable pub construct : Server
unfolding start_accept
construct = start_accept (record { sessions = λ _. none; next = 0; pending = [] })

-- `run` on a pool of so many threads, while the accepts complete with these errors, `true` for an
-- error: a thread of the pool takes the session that is handed back; `io_service::run` returns where
-- nothing is pending, and a pool of no threads is joined at once.
unfoldable pub run : ℕ → List Bool → Server → Server
unfolding handle_accept
run zero errors s = s
run (suc n) [] s = s
run (suc n) (error ∷ errors) s = elim s.pending as (λ x. Server) [
  | [] ↦ s
  | session ∷ pending ↦
      run (suc n) errors (handle_accept session error (record s { pending = pending }))
]
