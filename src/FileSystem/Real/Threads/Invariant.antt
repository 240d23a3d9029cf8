-- ===== src/FileSystem/Real/Threads/Invariant.antt =====
-- What the calls in progress know of the mutex and of the directory.
use native.Mathlib.Decide.{ℕ_discrete}
use server_spring.Base.{
  update, ℕ, ◌≡◌, refl, arith, true, List, Bytes, Option, none, some, ok, ◌⊎◌, inl, inr, >>=-eq-ok,
}
use server_spring.Number.Printing.{decimal}
use server_spring.FileSystem.Real.{Disk, get_unique_file_name}
use server_spring.FileSystem.Real.Threads.Mutex.{critical, IsOwned, Move-IsOwned}
use server_spring.FileSystem.Real.Threads.Directory.{
  Has, Grows, DirectoryLaws, Has-Grows, unique-not-Has,
}
use server_spring.FileSystem.Real.Threads.{
  Job, Shared, Pc, called, chosen, opened, writing, closed, file_path, Move, writes, remove,
  remove_all, create, choose_number, fopen, unlock, fputs, unlock_again, returned, System,
  IsHarmless, Calm, begun, moved,
}

-- the number of the new file, from its choice on
abbrev pub number : Pc → Option ℕ
number (chosen _ n) = n
number (opened _ n) = n
number (writing _ n) = n
number (closed n) = n
number (returned n) = n
number _ = none

-- the number of a file that was made
abbrev pub made : Pc → Option ℕ
made (chosen _ _) = none
made p = number p

module _ {D : Type 0} (on : Disk D) (directory : Bytes) where
  abbrev pub IsNamed : Pc → Type 0
  IsNamed (chosen path (some n)) = path ≡ file_path directory n
  IsNamed _ = Unit

  pub record Inv (job : ℕ → Job) (m : Shared D) (pc : ℕ → Pc) : Type 0 where
    pub owned : IsOwned m pc
    pub apart : (i j n : ℕ) → number (pc i) ≡ some n → number (pc j) ≡ some n → i ≡ j
    pub readable :
        (i n : ℕ) → number (pc i) ≡ some n → (ss : List Bytes) × (on.stems directory m.disk ≡ ok ss)
    pub present : (i n : ℕ) → made (pc i) ≡ some n → Has on directory m.disk (decimal n)
    pub named : (i : ℕ) → IsNamed (pc i)

  made-or-critical : (p : Pc) (n : ℕ) → number p ≡ some n → (made p ≡ some n) ⊎ (critical p ≡ true)
  made-or-critical (chosen _ _) n h = inr refl
  made-or-critical p n h = ground arith

  module _ (job : ℕ → Job) (writing_all : (i : ℕ) → writes (job i) ≡ true)
      (laws : DirectoryLaws on directory) {m : Shared D} {pc : ℕ → Pc} (inv : Inv job m pc)
      (i : ℕ) where
    open inv use {owned, apart, readable, present, named}

    -- a new number is that of no other call: what was made is in the directory, and the owner of the
    -- mutex is alone
    Move-apart :
        {p p' : Pc} {m' : Shared D}
        → Move on directory job i m p m' p'
        → pc i ≡ p
        → (j n : ℕ) → number p' ≡ some n
        → number (pc j) ≡ some n
        → i ≡ j
    Move-apart (choose_number q g) e j n h k = elim (made-or-critical (pc j) n k) [
      | inl was ↦ absurd (unique-not-Has on directory m.disk n (ground arith) (present j n was))
      | inr inside ↦ ground (arith, owned i, owned j inside)
    ]
    Move-apart mv e j n h k = ground (arith, apart i j n)

    Move-apart-update :
        {p p' : Pc} {m' : Shared D}
        → Move on directory job i m p m' p'
        → pc i ≡ p
        → (a b n : ℕ) → number (update pc i p' a) ≡ some n
        → number (update pc i p' b) ≡ some n
        → a ≡ b
    Move-apart-update mv e a b n h k =
        ground (arith, apart a b n, Move-apart mv e a n, Move-apart mv e b n)

    Move-Grows :
        {p p' : Pc} {m' : Shared D}
        → Move on directory job i m p m' p'
        → Grows on directory m.disk m'.disk
    Move-Grows (create g) = laws.create_directory_lem _ _ _ _ g
    Move-Grows (fopen g) = laws.open_file_lem _ _ _ g
    Move-Grows fputs = laws.append_lem _ _ _
    Move-Grows (remove q g) = absurd cc (writing_all i, q)
    Move-Grows (remove_all q g) = absurd cc (writing_all i, q)
    Move-Grows mv = λ ss e. (ss, e, λ t h. h)

    readable-new :
        {p p' : Pc} {m' : Shared D}
        → Move on directory job i m p m' p'
        → pc i ≡ p
        → (n : ℕ) → number p' ≡ some n
        → (ss : List Bytes) × (on.stems directory m.disk ≡ ok ss)
    unfolding get_unique_file_name
    readable-new (choose_number q g) e n h =
        let (ss, read, next) = >>=-eq-ok (on.stems directory m.disk) _ g in (ss, read)
    readable-new mv e n h = readable i n (ground arith)

    Move-readable :
        {p p' : Pc} {m' : Shared D}
        → Move on directory job i m p m' p'
        → pc i ≡ p
        → (j n : ℕ) → number (update pc i p' j) ≡ some n
        → (ss : List Bytes) × (on.stems directory m'.disk ≡ ok ss)
    Move-readable mv e j n h = elim (ℕ_discrete i j) [
      | yes own ↦
          let (ss, read) = readable-new mv e n (ground arith) in
          let (ss', read', keeps) = Move-Grows mv ss read in (ss', read')
      | no other ↦
          let (ss, read) = readable j n (ground arith) in
          let (ss', read', keeps) = Move-Grows mv ss read in (ss', read')
    ]

    present-new :
        {p p' : Pc} {m' : Shared D}
        → Move on directory job i m p m' p'
        → pc i ≡ p
        → (n : ℕ) → made p' ≡ some n
        → Has on directory m'.disk (decimal n)
    present-new (fopen {path} {n = k} {disk} g) e n h =
        let (ss, read) = readable i n (ground arith) in
        let name : path ≡ file_path directory n = ground (arith, named i) in
        laws.open_new_lem n ss m.disk disk read (rw⁻¹ name g)
    present-new (unlock {path} {n = k}) e n h = present i n (ground arith)
    present-new (fputs {path} {n = k}) e n h =
        Has-Grows on directory (laws.append_lem _ _ _) (present i n (ground arith))
    present-new (unlock_again {n = k}) e n h = present i n (ground arith)
    present-new mv e n h = absurd (ground arith)

    Move-present :
        {p p' : Pc} {m' : Shared D}
        → Move on directory job i m p m' p'
        → pc i ≡ p
        → (j n : ℕ) → made (update pc i p' j) ≡ some n
        → Has on directory m'.disk (decimal n)
    Move-present mv e j n h = elim (ℕ_discrete i j) [
      | yes own ↦ present-new mv e n (ground arith)
      | no other ↦ Has-Grows on directory (Move-Grows mv) (present j n (ground arith))
    ]

    Move-IsNamed :
        {p p' : Pc} {m' : Shared D}
        → Move on directory job i m p m' p'
        → pc i ≡ p
        → (j : ℕ) → IsNamed (update pc i p' j)
    Move-IsNamed (choose_number q g) e j = ground (arith, named j)
    Move-IsNamed mv e j = ground (arith, named j)

    pub Move-Inv :
        {p' : Pc} {m' : Shared D}
        → Move on directory job i m (pc i) m' p'
        → IsHarmless (pc i) m.owner
        → Inv job m' (update pc i p')
    Move-Inv mv h = record {
      owned = Move-IsOwned on directory job pc i owned mv refl h;
      apart = Move-apart-update mv refl;
      readable = Move-readable mv refl;
      present = Move-present mv refl;
      named = Move-IsNamed mv refl;
    }

  Inv-init :
      (job : ℕ → Job) (disk : D) → Inv job (record { owner = none; disk = disk }) (λ _. called)
  Inv-init job disk = record {
    owned = λ i h. ground arith;
    apart = λ i j n h k. ground arith;
    readable = λ i n h. absurd (ground arith);
    present = λ i n h. absurd (ground arith);
    named = λ i. tt;
  }

  pub Calm-Inv :
      (job : ℕ → Job) {disk : D} {s : System D}
      → ((i : ℕ) → writes (job i) ≡ true)
      → DirectoryLaws on directory
      → Calm on directory job disk s
      → Inv job s.shared s.pc
  Calm-Inv job {disk} w laws begun = Inv-init job disk
  Calm-Inv job w laws (moved r i h mv) = Move-Inv job w laws (Calm-Inv job w laws r) i mv h
