-- ===== src/Server/Accepting.antt =====
-- Each connection has a session of its own, and one more session waits.
use server_spring.Base.{
  ℕ, suc, ◌+◌, ◌<◌, ◌≡◌, refl, ◌∙◌, arith, Bool, List, [], ◌∷◌, length, none, some, if◌then◌else◌,
}
use server_spring.Server.{
  waiting, started, deleted, Server, start_accept, handle_accept, construct, run,
}

-- Session `n` waits for a connection, alone, and is the newest.
pub record IsAccepting (n : ℕ) (s : Server) : Type 0 where
  pub pending : s.pending ≡ n ∷ []
  pub next : s.next ≡ n + 1
  pub waits : s.sessions n ≡ some waiting
  pub unused : (j : ℕ) → s.sessions (n + 1 + j) ≡ none

-- the fates of the sessions from `n` on, as the errors of their accepts say
abbrev pub AsAccepted : ℕ → List Bool → Server → Type 0
AsAccepted n [] s = Unit
AsAccepted n (error ∷ errors) s =
    (s.sessions n ≡ some (if error then deleted else started)) × AsAccepted (n + 1) errors s

pub construct-IsAccepting : IsAccepting 0 construct
unfolding construct start_accept
construct-IsAccepting = record {
  pending = refl;
  next = refl;
  waits = ground arith;
  unused = λ j. ground arith;
}

module _ (n : ℕ) (error : Bool) (s : Server) (h : IsAccepting n s) where
  abbrev after : Server
  after = handle_accept n error (record s { pending = [] })

  pub handle_accept-IsAccepting : IsAccepting (n + 1) after
  unfolding handle_accept start_accept
  handle_accept-IsAccepting = record {
    pending = ground (arith, h.next);
    next = omega (arith, h.next);
    waits = ground (arith, h.next);
    unused = λ j.
        let e : n + 1 + 1 + j ≡ n + 1 + suc j = omega arith in
        rw e (ground (arith, h.next, h.unused (suc j)));
  }

  pub handle_accept-fate : after.sessions n ≡ some (if error then deleted else started)
  unfolding handle_accept start_accept
  handle_accept-fate = ground (arith, h.next)

  pub handle_accept-kept : (j : ℕ) → j < n → after.sessions j ≡ s.sessions j
  unfolding handle_accept start_accept
  handle_accept-kept j less = ground (arith, h.next)

run_lem :
    (threads : ℕ) (errors : List Bool) (n k : ℕ) (s : Server)
    → k ≡ n + length errors
    → IsAccepting n s
    → IsAccepting k (run (suc threads) errors s)
      × AsAccepted n errors (run (suc threads) errors s)
      × ((i : ℕ) → i < n → (run (suc threads) errors s).sessions i ≡ s.sessions i)
unfolding run
run_lem threads [] n k s size h = let e : k ≡ n = omega arith in (rw e h, tt, (λ i less. refl))
run_lem threads (error ∷ errors) n k s size h = rw h.pending (
    let (later, fates, kept) =
      run_lem threads errors (n + 1) k (after n error s h) (omega arith)
        (handle_accept-IsAccepting n error s h) in
    (
      later,
      (kept n (omega arith) ∙ handle_accept-fate n error s h, fates),
      (λ i less. kept i (omega arith) ∙ handle_accept-kept n error s h i less),
    ))

-- From the constructor on, in a pool of at least one thread: after any completed accepts exactly one
-- session waits, and of those before it each was started, or deleted where its accept failed.
pub run-IsAccepting :
    (threads : ℕ) (errors : List Bool)
    → IsAccepting (length errors) (run (suc threads) errors construct)
      × AsAccepted 0 errors (run (suc threads) errors construct)
run-IsAccepting threads errors =
    let (h, fates, kept) =
      run_lem threads errors 0 (length errors) construct (omega arith) construct-IsAccepting in
    (h, fates)
