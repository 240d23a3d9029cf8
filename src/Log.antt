-- ===== src/Log.antt =====
-- The severities of the log and their text (include/logger.h), a line of the log, and a run that writes
-- lines. What boost::log does with a line is not modelled.
use server_spring.Base.{
  ℕ, List, [], ◌∷◌, ◌++◌, Bytes, codes, get_elem?, none, some, Run, ok, throws, undefined, spent,
  ◌>>=◌, ◌≡◌, refl,
}
use server_spring.Number.Printing.{decimal}

-- `severity_level`
pub data Severity : Type 0 where
  trace debug info warning error fatal : Severity

-- the number of an enumerator
abbrev pub level : Severity → ℕ
level Severity.trace = 0
level Severity.debug = 1
level Severity.info = 2
level Severity.warning = 3
level Severity.error = 4
level Severity.fatal = 5

abbrev strings : List Bytes
strings =
    codes "trace"
    ∷ codes "debug"
    ∷ codes "info"
    ∷ codes "warning"
    ∷ codes "error"
    ∷ codes "fatal"
    ∷ []

-- `operator<<` of a `severity_level` of any value: the number where it is no enumerator
unfoldable pub write_severity : ℕ → Bytes
write_severity n = elim (get_elem? strings n) [ some s ↦ s | none ↦ decimal n ]

-- what `LOG(severity) << message` writes
pub record Line : Type 0 where
  pub severity : Severity
  pub message : Bytes

abbrev pub logged : Severity → Bytes → Line
logged severity message = record { severity = severity; message = message }

-- what a call has written when it ends, and how it ends
pub record Logged (A : Type 0) : Type 0 where
  pub lines : List Line
  pub outcome : Run A

-- the lines that are written whatever follows, and what follows
abbrev pub write : {A : Type 0} → List Line → Logged A → Logged A
write lines m = record m { lines = lines ++ m.lines }

abbrev pub follow : {A B : Type 0} → Run A → (A → Logged B) → Logged B
follow (ok a) f = f a
follow (throws e) f = record { lines = []; outcome = throws e }
follow undefined f = record { lines = []; outcome = undefined }
follow spent f = record { lines = []; outcome = spent }

-- a run that writes nothing
abbrev pub silent : {A : Type 0} → Run A → Logged A
silent m = record { lines = []; outcome = m }

-- a run that writes a line and returns
abbrev pub told : {A : Type 0} → Line → A → Logged A
told line a = record { lines = line ∷ []; outcome = ok a }

-- what follows with its lines ends as it does without
pub follow-outcome :
    {A B : Type 0} (m : Run A) (f : A → Logged B) (g : A → Run B)
    → ((a : A) → (f a).outcome ≡ g a)
    → (follow m f).outcome ≡ (m >>= g)
follow-outcome (ok a) f g h = h a
follow-outcome (throws e) f g h = refl
follow-outcome undefined f g h = refl
follow-outcome spent f g h = refl
