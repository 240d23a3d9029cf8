-- ===== src/Connections/Invariant.antt =====
-- One accept is pending, and each session that was started has one operation pending.
use server_spring.Base.{
  update, ℕ, ◌+◌, ◌≡◌, ◌≢◌, sym, ◌∙◌, ap, subst, arith, Bool, true, false, [], Bytes, length,
  Option, some,
}
use server_spring.Http.{Library, Machine}
use server_spring.FileSystem.{FileSystem}
use server_spring.Routes.{Routes}
use server_spring.Server.{Fate, started, deleted, Server, handle_accept, start_accept, construct}
use server_spring.Server.Accepting.{IsAccepting, construct-IsAccepting, handle_accept-IsAccepting}
use server_spring.Session.{
  max_length, Pending, reading, writing, Session, start, handle_read, handle_write,
}
use server_spring.Session.Buffer.{length-receive}
use server_spring.Session.Turns.{read_lem}
use server_spring.Connections.{
  Connection, filled, after_read, after_write, after_failure, System, delete_session, Step, accept,
  accept_fails, read, read_fails, write, write_fails, Reach, begun, later,
}

-- one operation is pending, and no response is before its request
abbrev pub InTurn : Pending → ℕ → ℕ → Type 0
InTurn reading n m = n ≡ m
InTurn writing n m = n ≡ m + 1
InTurn Pending.deleted n m = ⊥

-- an object that the callbacks use, by what became of the session
abbrev pub IsOpen : Option Fate → Connection → Type 0
IsOpen (some started) c =
    (length c.session.data_ ≡ max_length) × InTurn c.session.pending c.requests c.responses
IsOpen _ c = Unit

pub record IsRunning {S : Type 0} (s : System S) : Type 0 where
  pub newest : ℕ
  pub accepting : IsAccepting newest s.server
  pub open_sessions : (i : ℕ) → IsOpen (s.server.sessions i) (s.connections i)

delete-IsAccepting :
    (n i : ℕ) (server : Server)
    → IsAccepting n server
    → server.sessions i ≡ some started
    → IsAccepting n (delete_session i server)
delete-IsAccepting n i server h e = record {
  pending = h.pending;
  next = h.next;
  waits = ground (arith, e, h.waits);
  unused = λ j. ground (arith, e, h.unused j);
}

-- the sessions of the server but the one that waited and the new one are as they were
handle_accept-others :
    (n i : ℕ) (error : Bool) (server : Server)
    → IsAccepting n server
    → n ≢ i
    → (c : Connection) → IsOpen (server.sessions i) c
    → IsOpen ((handle_accept n error (record server { pending = [] })).sessions i) c
unfolding handle_accept start_accept
handle_accept-others n i error server h ne c k = ground (arith, h.next, ne, k)

module _ (fates : ℕ → Option Fate) (connections : ℕ → Connection) (i : ℕ)
    (h : (j : ℕ) → IsOpen (fates j) (connections j)) where
  update-IsOpen :
      (c : Connection) → IsOpen (fates i) c → (j : ℕ) → IsOpen (fates j) (update connections i c j)
  update-IsOpen c k j = ground (arith, h j)

  delete-IsOpen :
      (c : Connection) (j : ℕ) → IsOpen (update fates i (some deleted) j) (update connections i c j)
  delete-IsOpen c j = ground (arith, h j)

module _ {S : Type 0} (n : ℕ) (s : System S) (acc : IsAccepting n s.server)
    (h : (i : ℕ) → IsOpen (s.server.sessions i) (s.connections i)) where
  accept-IsRunning :
      (data_ : Bytes)
      → length data_ ≡ max_length
      → IsRunning (record s {
        server = handle_accept n false (record s.server { pending = [] });
        connections =
            update s.connections n (record { session = start data_; requests = 0; responses = 0 });
      })
  unfolding handle_accept start_accept
  accept-IsRunning data_ size = record {
    newest = n + 1;
    accepting = handle_accept-IsAccepting n false s.server acc;
    open_sessions = λ j. ground (arith, acc.next, size, h j);
  }

  refuse-IsRunning :
      IsRunning (record s { server = handle_accept n true (record s.server { pending = [] }) })
  unfolding handle_accept start_accept
  refuse-IsRunning = record {
    newest = n + 1;
    accepting = handle_accept-IsAccepting n true s.server acc;
    open_sessions = λ j. ground (arith, acc.next, h j);
  }

module _ {S : Type 0} (lib : Library) (machine : Machine S) (fs : FileSystem S)
    (routes : Routes) where
  -- the object of a session that reads or writes
  live-IsOpen :
      (s : System S) (i : ℕ)
      → IsRunning s
      → s.server.sessions i ≡ some started
      → IsOpen (some started) (s.connections i)
  live-IsOpen s i h live = subst (λ f. IsOpen f (s.connections i)) live (h.open_sessions i)

  pub Step-IsRunning : {s t : System S} → Step lib machine fs routes s t → IsRunning s → IsRunning t
  unfolding handle_read handle_write
  Step-IsRunning {s} (accept id rest data_ e size) h =
      let head : id ≡ h.newest = ground (arith, e, h.accepting.pending) in
      let last : rest ≡ [] = ground (arith, e, h.accepting.pending) in
      rw (head, last) (accept-IsRunning h.newest s h.accepting h.open_sessions data_ size)
  Step-IsRunning {s} (accept_fails id rest e) h =
      let head : id ≡ h.newest = ground (arith, e, h.accepting.pending) in
      let last : rest ≡ [] = ground (arith, e, h.accepting.pending) in
      rw (head, last) (refuse-IsRunning h.newest s h.accepting h.open_sessions)
  Step-IsRunning {s} (read i endpoint bytes {after} {state} live p le e) h =
      let c = s.connections i in
      let (size, turn) = live-IsOpen s i h live in
      let even : c.requests ≡ c.responses = subst (λ t. InTurn t c.requests c.responses) p turn in
      let (q, d) = read_lem lib machine fs routes endpoint (filled bytes c) after s.state state e in
      record {
        newest = h.newest;
        accepting = h.accepting;
        open_sessions =
            update-IsOpen s.server.sessions s.connections i h.open_sessions (after_read after c) (
              rw live (
                ap length d ∙ length-receive bytes c.session.data_ (omega (arith, size, le)) ∙ size,
                rw q (omega (arith, even)),
              ));
      }
  Step-IsRunning {s} (read_fails i endpoint {after} live p e) h = record {
    newest = h.newest;
    accepting = delete-IsAccepting h.newest i s.server h.accepting live;
    open_sessions =
        delete-IsOpen s.server.sessions s.connections i h.open_sessions
          (after_failure after (s.connections i));
  }
  Step-IsRunning {s} (write i {after} live p e) h =
      let c = s.connections i in
      let (size, turn) = live-IsOpen s i h live in
      let odd : c.requests ≡ c.responses + 1 =
        subst (λ t. InTurn t c.requests c.responses) p turn in
      let q : after.pending ≡ reading = ap (λ (x : ℕ × Session). x.1.pending) (sym e) in
      let d : after.data_ ≡ c.session.data_ = ap (λ (x : ℕ × Session). x.1.data_) (sym e) in
      record {
        newest = h.newest;
        accepting = h.accepting;
        open_sessions =
            update-IsOpen s.server.sessions s.connections i h.open_sessions (after_write after c)
              (rw live (ap length d ∙ size, rw q odd));
      }
  Step-IsRunning {s} (write_fails i {after} live p e) h = record {
    newest = h.newest;
    accepting = delete-IsAccepting h.newest i s.server h.accepting live;
    open_sessions =
        delete-IsOpen s.server.sessions s.connections i h.open_sessions
          (after_failure after (s.connections i));
  }

  begun-IsRunning :
      (connections : ℕ → Connection) (state : S)
      → IsRunning (record { server = construct; connections = connections; state = state })
  unfolding construct start_accept
  begun-IsRunning connections state = record {
    newest = 0;
    accepting = construct-IsAccepting;
    open_sessions = λ i. ground arith;
  }

  -- However the callbacks of the program complete, exactly one session waits for a connection, it is
  -- the newest, and each session that was started and not deleted has its array of `max_length`
  -- bytes, waits for one read or one write, and has written a response to each of its requests, but
  -- to the last while that is being written.
  pub Reach-IsRunning :
      {state : S} {s : System S} → Reach lib machine fs routes state s → IsRunning s
  Reach-IsRunning {state} (begun connections) = begun-IsRunning connections state
  Reach-IsRunning (later r st) = Step-IsRunning st (Reach-IsRunning r)
