-- ===== src/Examples/Threads.antt =====
-- Calls of `gen_id_and_write_file` on a disk in memory.
use native.Mathlib.Decide.{ℕ_discrete}
use mathlib.Core.List.{Memᴰ}
use mathlib.Core.Option.{some-injective}
use server_spring.Base.{
  ℕ, ◌<◌, ◌≡◌, ◌≢◌, ◌⊎◌, refl, inl, arith, Bool, [], ◌∷◌, ◌++◌, Bytes, codes, drop, c_str, none,
  some, subst, ap, ok-injective, sym,
}
use server_spring.Number.{stoi, is_digit}
use server_spring.Number.Printing.{to_string, decimal, IsDigits, decimal-IsDigits}
use server_spring.FileSystem.Real.{next_name, get_unique_file_name, largest_file}
use server_spring.FileSystem.Real.Threads.{
  file_path, Job, post, Shared, Pc, ready, entered, Move, found, lock, choose_number, fopen, unlock,
  fputs, unlock_again, System, pick, Reach, start, later, Calm, begun, moved,
}
use server_spring.FileSystem.Real.Threads.Directory.{Has, Grows, DirectoryLaws}
use server_spring.FileSystem.Real.Threads.Invariant.{number}
use server_spring.FileSystem.Real.Threads.Safety.{left, Calm-distinct, no_deadlock}
use server_spring.Examples.RealFiles.{Files, contents, stems, memory}

abbrev directory : Bytes
directory = codes "d"

-- a file in front of the others
cons-Grows : (file : Bytes × Bytes) (d : Files) → Grows memory directory d (file ∷ d)
cons-Grows file d ss h =
    (stems (file ∷ d), refl, λ stem mem. Memᴰ.tail (subst (Memᴰ stem) (sym (ok-injective h)) mem))

c_str-digits : (s : Bytes) → IsDigits s → c_str s ≡ s
unfolding c_str is_digit
c_str-digits [] h = refl
c_str-digits (c ∷ s) (one, h) = ground (arith, c_str-digits s h, one)

c_str-file_path : (n : ℕ) → c_str (file_path directory n) ≡ file_path directory n
unfolding c_str codes to_string
c_str-file_path n = ap (λ s. codes "d/" ++ s) (c_str-digits (decimal n) (decimal-IsDigits n))

memory-DirectoryLaws : DirectoryLaws memory directory
unfolding codes to_string
memory-DirectoryLaws = record {
  create_directory_lem = λ p b d d' e.
      subst (Grows memory directory d) (ap (λ (x : Bool × Files). x.1) (ok-injective e))
        (λ ss h. (ss, h, λ stem mem. mem));
  open_file_lem =
      λ p d d' e. subst (Grows memory directory d) (some-injective _ _ e) (cons-Grows (p, []) d);
  append_lem = λ p text d. cons-Grows (p, contents p d ++ text) d;
  open_new_lem = λ n ss d d' h e.
      subst (λ d'. Has memory directory d' (decimal n)) (some-injective _ _ e)
        (_, refl, Memᴰ.head (sym (ap (drop 2) (c_str-file_path n))));
}

abbrev job : ℕ → Job
job i = post (codes "text")

-- call 0 has made the file 1 and has returned, call 1 has chosen the number 2
abbrev calls : (s : System Files) × Calm memory directory job [] s
unfolding ℕ_discrete get_unique_file_name next_name largest_file stoi is_digit decimal to_string
    codes c_str
calls = (
  _,
  moved
      (moved
        (moved
          (moved
            (moved
              (moved
                (moved
                  (moved (moved (moved begun 0 tt (found refl refl)) 0 tt (lock refl)) 0 tt
                    (choose_number {n = 1} refl refl))
                  0 tt (fopen refl))
                0 tt unlock)
              0 tt fputs)
            0 refl unlock_again)
          1 tt (found refl refl))
        1 tt (lock refl))
      1 tt (choose_number {n = 2} refl refl),
)

-- the numbers 1 and 2
Calm-distinct_example : ◌≢◌ {A = ℕ} 1 2
unfolding ℕ_discrete get_unique_file_name next_name largest_file stoi is_digit decimal to_string
    codes c_str
Calm-distinct_example =
    Calm-distinct memory directory job (λ i. refl) memory-DirectoryLaws calls.1 0 1 1 2
      (λ e. ground (arith, e)) refl refl

-- Call 0 has made the file 1 and has returned while call 1 owned the mutex, and calls 1 and 2 have
-- both chosen the number 2.
abbrev clash : (s : System Files) × Reach memory directory job [] s
unfolding ℕ_discrete get_unique_file_name next_name largest_file stoi is_digit decimal to_string
    codes c_str
clash = (
  _,
  later
      (later
        (later
          (later
            (later
              (later
                (later
                  (later
                    (later
                      (later
                        (later (later (later start (pick 0 (found refl refl))) (pick 0 (lock refl)))
                          (pick 0 (choose_number {n = 1} refl refl)))
                        (pick 0 (fopen refl)))
                      (pick 0 unlock))
                    (pick 0 fputs))
                  (pick 1 (found refl refl)))
                (pick 1 (lock refl)))
              (pick 1 (choose_number {n = 2} refl refl)))
            (pick 0 unlock_again))
          (pick 2 (found refl refl)))
        (pick 2 (lock refl)))
      (pick 2 (choose_number {n = 2} refl refl)),
)

same_number : (number (clash.0.pc 1) ≡ some 2) × (number (clash.0.pc 2) ≡ some 2)
unfolding ℕ_discrete clash
same_number = (refl, refl)

-- call 1 owns the mutex, and call 2 waits
abbrev waiting : (s : System Files) × Reach memory directory job [] s
unfolding ℕ_discrete get_unique_file_name next_name largest_file stoi is_digit decimal to_string
    codes c_str
waiting = (
  _,
  later
      (later
        (later
          (later
            (later
              (later
                (later
                  (later (later (later start (pick 0 (found refl refl))) (pick 0 (lock refl)))
                    (pick 0 (choose_number {n = 1} refl refl)))
                  (pick 0 (fopen refl)))
                (pick 0 unlock))
              (pick 1 (found refl refl)))
            (pick 1 (lock refl)))
          (pick 1 (choose_number {n = 2} refl refl)))
        (pick 2 (found refl refl)))
      (pick 1 (fopen refl)),
)

no_deadlock_example :
    ((waiting.0.shared.owner ≡ none)
      × Move memory directory job 2 waiting.0.shared ready
          (record waiting.0.shared { owner = some 2 })
          entered)
    ⊎ ((j : ℕ) × (waiting.0.shared.owner ≡ some j)
        × (m : Shared Files) × (p : Pc) × Move memory directory job j waiting.0.shared
            (waiting.0.pc j)
            m
            p
        × (left p < left (waiting.0.pc j)))
unfolding ℕ_discrete get_unique_file_name next_name largest_file stoi is_digit decimal to_string
    codes c_str
no_deadlock_example = no_deadlock memory directory job waiting.1 (inl (3, refl)) 2 refl
