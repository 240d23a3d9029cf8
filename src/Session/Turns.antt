-- ===== src/Session/Turns.antt =====
-- Reads and writes take turns.
use server_spring.Base.{
  ℕ, ◌+◌, ◌≡◌, ◌⊎◌, inl, inr, refl, sym, ◌∙◌, subst, ap, arith, false, length, ok, >>=-eq-ok,
  ok-injective, Run, Bytes,
}
use server_spring.Http.{Library, Machine, fresh_response}
use server_spring.FileSystem.{FileSystem}
use server_spring.Routes.{Routes}
use server_spring.Delegate.{process_request}
use server_spring.Session.{
  max_length, Pending, reading, writing, deleted, Session, receive, read_string, handle_read,
  handle_write, Reaches, started, read_done, read_failed, write_done, write_failed,
}
use server_spring.Session.Buffer.{length-receive}

-- the numbers of requests and responses, by what is pending
abbrev pub InTurn : Pending → ℕ → ℕ → Type 0
InTurn reading n m = n ≡ m
InTurn writing n m = n ≡ m + 1
InTurn deleted n m = (n ≡ m) ⊎ (n ≡ m + 1)

abbrev pub IsServing : Session → ℕ → ℕ → Type 0
IsServing session n m = (length session.data_ ≡ max_length) × InTurn session.pending n m

module _ {S : Type 0} (lib : Library) (machine : Machine S) (fs : FileSystem S)
    (routes : Routes) where
  pub read_lem :
      (endpoint : Run Bytes) (session after : Session) (s s' : S)
      → handle_read lib machine fs routes false endpoint session s ≡ ok (0, after, s')
      → (after.pending ≡ writing) × (after.data_ ≡ session.data_)
  unfolding handle_read
  read_lem endpoint session after s s' h =
      let (request, q, h1) = >>=-eq-ok (read_string session.data_) _ h in
      let (client, told, h0) = >>=-eq-ok endpoint _ h1 in
      let ((response, s''), q', h2) =
        >>=-eq-ok (process_request lib machine fs routes request fresh_response s) _ h0 in
      let e = ok-injective h2 in
      (
        ap (λ (x : ℕ × Session × S). x.1.pending) (sym e),
        ap (λ (x : ℕ × Session × S). x.1.data_) (sym e),
      )

  -- However the reads and writes of a session end, its array keeps its length, each response answers
  -- one request, and no request is read before the response to the last was written.
  pub Reaches-IsServing :
      {session : Session} {s : S} {n m : ℕ}
      → Reaches lib machine fs routes session s n m
      → IsServing session n m
  unfolding handle_read handle_write
  Reaches-IsServing (started data_ s h) = (h, refl)
  Reaches-IsServing (read_done {session} {after} {s} {s'} {n} {m} endpoint bytes r p l e) =
      let (len, turn) = Reaches-IsServing r in
      let (q, d) =
        read_lem endpoint (record session { data_ = receive bytes session.data_ }) after s s' e in
      let same : n ≡ m = subst (λ t. InTurn t n m) p turn in
      (
        ap length d ∙ length-receive bytes session.data_ (omega (arith, len, l)) ∙ len,
        subst (λ t. InTurn t (n + 1) m) (sym q) (omega (arith, same)),
      )
  Reaches-IsServing (read_failed {session} {after} {n = n} {m = m} endpoint r p e) =
      let (len, turn) = Reaches-IsServing r in
      subst (λ c. IsServing c n m) (ap (λ (x : ℕ × Session × S). x.1) (ok-injective e))
        (len, inl (subst (λ t. InTurn t n m) p turn))
  Reaches-IsServing (write_done {session} {after} {n = n} {m = m} r p e) =
      let (len, turn) = Reaches-IsServing r in
      subst (λ c. IsServing c n (m + 1)) (ap (λ (x : ℕ × Session). x.1) e)
        (len, subst (λ t. InTurn t n m) p turn)
  Reaches-IsServing (write_failed {session} {after} {n = n} {m = m} r p e) =
      let (len, turn) = Reaches-IsServing r in
      subst (λ c. IsServing c n m) (ap (λ (x : ℕ × Session). x.1) e)
        (len, inr (subst (λ t. InTurn t n m) p turn))
