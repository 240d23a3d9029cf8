-- ===== src/FileSystem/Real/Threads/Safety.antt =====
-- What holds of the calls in every interleaving.
use server_spring.Base.{
  ℕ, ◌<◌, ◌≡◌, ◌≢◌, ◌⊎◌, inl, inr, refl, sym, ap, ◌∙◌, arith, true, Bytes, c_str, Exception, none,
  some, Option-cases, Run, ok, throws,
}
use server_spring.FileSystem.Real.{Disk, get_unique_file_name}
use server_spring.FileSystem.Real.Threads.{
  Job, put, post, delete, writes, Shared, Pc, ready, entered, chosen, opened, refused, Move, lock,
  choose_path, choose_number, choose_throws, fopen, fopen_fails, unlock, unlock_refused, System,
  Reach, Calm,
}
use server_spring.FileSystem.Real.Threads.Directory.{DirectoryLaws}
use server_spring.FileSystem.Real.Threads.Mutex.{critical, on_way, Reach-IsHeld}
use server_spring.FileSystem.Real.Threads.Invariant.{number, Calm-Inv}

-- the moves that the owner of the mutex has before it
abbrev pub left : Pc → ℕ
left entered = 3
left (chosen _ _) = 2
left (opened _ _) = 1
left refused = 1
left _ = 0

abbrev pub Returns : {A : Type 0} → Run A → Type 0
Returns {A} m = ((a : A) × (m ≡ ok a)) ⊎ ((e : Exception) × (m ≡ throws e))

module _ {D : Type 0} (on : Disk D) (directory : Bytes) (job : ℕ → Job) where
  -- Two calls that have chosen a number, also after their end, have chosen different ones, in every
  -- interleaving of calls that write in which the second `unlock` of a call, by the destructor of
  -- its `unique_lock`, always comes upon a free mutex; no file is removed meanwhile.
  pub Calm-distinct :
      {disk : D} {s : System D}
      → ((i : ℕ) → writes (job i) ≡ true)
      → DirectoryLaws on directory
      → Calm on directory job disk s
      → (i j n k : ℕ) → i ≢ j
      → number (s.pc i) ≡ some n
      → number (s.pc j) ≡ some k
      → n ≢ k
  Calm-distinct w laws r i j n k other h h' same =
      other ((Calm-Inv on directory job w laws r).apart i j n h (h' ∙ ap some (sym same)))

  -- the owner of the mutex can move
  abbrev Moves : ℕ → Shared D → Pc → Type 0
  Moves j m p = (m' : Shared D) × (p' : Pc) × Move on directory job j m p m' p' × (left p' < left p)

  entered-Moves :
      (j : ℕ) (m : Shared D) (x : Job)
      → job j ≡ x
      → writes x ≡ true
      → Returns (get_unique_file_name on directory m.disk)
      → Moves j m entered
  entered-Moves j m (put path body) e w h = (_, _, choose_path e, omega arith)
  entered-Moves j m (post body) e w (inl (n, g)) = (_, _, choose_number e g, omega arith)
  entered-Moves j m (post body) e w (inr (x, g)) = (_, _, choose_throws e g, omega arith)
  entered-Moves j m (delete path) e w h = absurd cc

  on_way-critical : (p : Pc) → critical p ≡ true → on_way p ≡ true
  on_way-critical entered c = refl
  on_way-critical p c = ground arith

  critical-Moves :
      (j : ℕ) (m : Shared D) (p : Pc)
      → critical p ≡ true
      → writes (job j) ≡ true
      → Returns (get_unique_file_name on directory m.disk)
      → Moves j m p
  critical-Moves j m entered c w h = entered-Moves j m (job j) refl w h
  critical-Moves j m (chosen path n) c w h =
      elim (Option-cases (on.open_file (c_str path) m.disk)) [
        | inl e ↦ (_, _, fopen_fails e, omega arith)
        | inr (d, e) ↦ (_, _, fopen e, omega arith)
      ]
  critical-Moves j m (opened path n) c w h = (_, _, unlock, omega arith)
  critical-Moves j m refused c w h = (_, _, unlock_refused, omega arith)
  critical-Moves j m p c w h = absurd (ground arith)

  -- No deadlock, whatever files are removed meanwhile: a call that waits for the mutex can take it, or its owner can move, and then has at
  -- most two moves left in which it holds it; if the search for a new number returns or throws.
  pub no_deadlock :
      {disk : D} {s : System D}
      → Reach on directory job disk s
      → Returns (get_unique_file_name on directory s.shared.disk)
      → (i : ℕ) → s.pc i ≡ ready
      → ((s.shared.owner ≡ none)
          × Move on directory job i s.shared ready (record s.shared { owner = some i }) entered)
        ⊎ ((j : ℕ) × (s.shared.owner ≡ some j)
            × (m : Shared D) × (p : Pc) × Move on directory job j s.shared (s.pc j) m p
            × (left p < left (s.pc j)))
  no_deadlock {s} r h i e = elim (Option-cases s.shared.owner) [
    | inl free ↦ inl (free, lock free)
    | inr (j, owner) ↦
        let inside = (Reach-IsHeld on directory job r).held j owner in
        let (m, p, move, less) =
          critical-Moves j s.shared (s.pc j) inside
            ((Reach-IsHeld on directory job r).writing j (on_way-critical (s.pc j) inside)) h in
        inr (j, owner, m, p, move, less)
  ]
