-- ===== src/FileSystem/Real/Threads/Mutex.antt =====
-- The mutex and the calls: the one that owns it is between `lock` and `unlock`, and alone there as
-- long as no second `unlock` frees the mutex of another.
use server_spring.Base.{Bytes, update, ℕ, ◌≡◌, refl, arith, Bool, true, false, some}
use server_spring.FileSystem.Real.{Disk}
use server_spring.FileSystem.Real.Threads.{
  missing, ready, found, not_found, writes, Job, Shared, Pc, entered, chosen, opened, refused, Move,
  lock, System, pick, Reach, start, later, IsHarmless,
}

-- between `lock` and `unlock`
abbrev pub critical : Pc → Bool
critical entered = true
critical (chosen _ _) = true
critical (opened _ _) = true
critical refused = true
critical _ = false

-- from the test of the directory to `unlock`: only calls that write get there
abbrev pub on_way : Pc → Bool
on_way missing = true
on_way ready = true
on_way p = critical p

pub record IsHeld {D : Type 0} (job : ℕ → Job) (m : Shared D) (pc : ℕ → Pc) : Type 0 where
  pub held : (i : ℕ) → m.owner ≡ some i → critical (pc i) ≡ true
  pub writing : (i : ℕ) → on_way (pc i) ≡ true → writes (job i) ≡ true

-- a call between `lock` and `unlock` owns the mutex
abbrev pub IsOwned : {D : Type 0} → Shared D → (ℕ → Pc) → Type 0
IsOwned m pc = (i : ℕ) → critical (pc i) ≡ true → m.owner ≡ some i

module _ {D : Type 0} (on : Disk D) (directory : Bytes) (job : ℕ → Job) {m : Shared D} (pc : ℕ → Pc)
    (i : ℕ) where
  pub Move-IsOwned :
      {p p' : Pc} {m' : Shared D}
      → IsOwned m pc
      → Move on directory job i m p m' p'
      → pc i ≡ p
      → IsHarmless p m.owner
      → IsOwned m' (update pc i p')
  Move-IsOwned owned (lock free) e h j q = ground (arith, owned i, owned j)
  Move-IsOwned owned mv e h j q = ground (arith, owned i, owned j, h)

  module _ (mutex : IsHeld job m pc) where
    open mutex use {held, writing}

    Move-held :
        {p p' : Pc} {m' : Shared D}
        → Move on directory job i m p m' p'
        → pc i ≡ p
        → (j : ℕ) → m'.owner ≡ some j
        → critical (update pc i p' j) ≡ true
    Move-held (lock free) e j q = ground (arith, held i, held j)
    Move-held mv e j q = ground (arith, held i, held j)

    Move-writing :
        {p p' : Pc} {m' : Shared D}
        → Move on directory job i m p m' p'
        → pc i ≡ p
        → (j : ℕ) → on_way (update pc i p' j) ≡ true
        → writes (job j) ≡ true
    Move-writing (found w h) e j q = ground (arith, w, writing j)
    Move-writing (not_found w h) e j q = ground (arith, w, writing j)
    Move-writing mv e j q = ground (arith, writing i, writing j)

    Move-IsHeld :
        {p' : Pc} {m' : Shared D}
        → Move on directory job i m (pc i) m' p'
        → IsHeld job m' (update pc i p')
    Move-IsHeld mv = record { held = Move-held mv refl; writing = Move-writing mv refl }

module _ {D : Type 0} (on : Disk D) (directory : Bytes) (job : ℕ → Job) where
  pub Reach-IsHeld :
      {disk : D} {s : System D} → Reach on directory job disk s → IsHeld job s.shared s.pc
  Reach-IsHeld {disk} start = record { held = λ i h. ground arith; writing = λ i h. ground arith }
  Reach-IsHeld (later r (pick i mv)) = Move-IsHeld on directory job _ i (Reach-IsHeld r) mv
