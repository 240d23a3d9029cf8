-- ===== src/Main/Report/Laws.antt =====
-- That the log does not change what `main` does, and what its last line says.
use server_spring.Base.{
  ℕ, ◌≡◌, inl, inr, refl, sym, ◌∙◌, ap, arith, Bool, false, List, [], ◌∷◌, ◌++◌, append_assoc,
  Bytes, Option, none, some, Exception, Run, ok, throws, undefined, spent, ◌>>=◌, ◌==◌, Bool-cases,
  >>=-eq-ok,
}
use server_spring.Number.{pos, negsuc, ℤ}
use server_spring.Log.{Line, Logged, follow-outcome}
use server_spring.Config.Types.{NginxConfig}
use server_spring.Config.Parser.{Parsed, parse}
use server_spring.Config.Parser.Report.{parse_logged-outcome}
use server_spring.Config.File.{parse_file}
use server_spring.Config.Port.{get_port}
use server_spring.Config.Port.Report.{get_port_logged, get_port_logged-outcome}
use server_spring.Config.Locations.{extract_filesystem_map, validate_relative_paths}
use server_spring.Main.{
  Exit, exit_code, serves, to_short, to_unsigned_short, start_server, catch, main,
}
use server_spring.Main.Report.{
  usage, parsing, guarded, not_parsed, no_valid_port, caught, use_port, parse_file_logged,
  start_server_logged, catch_logged, main_logged,
}

parse_file_logged-outcome :
    (is_relative : Bytes → Bool) (file_name : Bytes) (file : Option Bytes)
    → (parse_file_logged is_relative file_name file).outcome ≡ parse_file is_relative file
unfolding parse_file_logged parse_file
parse_file_logged-outcome is_relative file_name none = refl
parse_file_logged-outcome is_relative file_name (some text) = rw (parse_logged-outcome text) (
    follow-outcome (parse text) _ _ (λ p.
      follow-outcome (validate_relative_paths is_relative p.config) _ _
        (λ relative. elim (Bool-cases relative) [ inl e ↦ rw e refl | inr e ↦ rw e refl ])))

use_port-outcome :
    (bind_port : ℕ → Run (Unit {0})) (c : NginxConfig) (port : ℤ)
    → (use_port bind_port c port).outcome ≡ elim port [
      | negsuc n ↦ ok (exit_code 1)
      | pos n ↦ (do
        m ← extract_filesystem_map c []
        bound ← bind_port (to_unsigned_short (to_short n))
        ok (serves n m))
    ]
use_port-outcome bind_port c (negsuc n) = refl
use_port-outcome bind_port c (pos n) =
    follow-outcome (extract_filesystem_map c []) _
      (λ m. do bound ← bind_port (to_unsigned_short (to_short n)); ok (serves n m))
      (λ m. follow-outcome (bind_port (to_unsigned_short (to_short n))) _ _ (λ bound. refl))

start_server_logged-outcome :
    (bind_port : ℕ → Run (Unit {0})) (p : Parsed)
    → (start_server_logged bind_port p).outcome ≡ start_server bind_port p
unfolding start_server_logged start_server
start_server_logged-outcome bind_port p = elim (Bool-cases p.success) [
  | inl e ↦
      rw (e, get_port_logged-outcome p.config)
        (follow-outcome (get_port p.config) (use_port bind_port p.config) _
          (use_port-outcome bind_port p.config))
  | inr e ↦ rw e refl
]

-- why `main` returns a value without having made a server, and the line that says so
pub data Explains (bind_port : ℕ → Run (Unit {0})) (what : Exception → Bytes)
    (is_relative : Bytes → Bool) (argc : ℕ) (file : Option Bytes) : ℕ → Line → Type 0 where
  no_file : (argc == 2) ≡ false → Explains bind_port what is_relative argc file 1 usage
  refused :
      (p : Parsed)
      → parse_file is_relative file ≡ ok p
      → p.success ≡ false
      → Explains bind_port what is_relative argc file 1 not_parsed
  portless :
      (p : Parsed) (n : ℕ)
      → parse_file is_relative file ≡ ok p
      → get_port p.config ≡ ok (negsuc n)
      → Explains bind_port what is_relative argc file 1 no_valid_port
  failed :
      (x : Exception)
      → ◌>>=◌ {B = Exit} (parse_file is_relative file) (start_server bind_port) ≡ throws x
      → Explains bind_port what is_relative argc file 0 (caught (what x))

use_port-lines :
    (bind_port : ℕ → Run (Unit {0})) (c : NginxConfig) (port : ℤ) (code : ℕ)
    → (use_port bind_port c port).outcome ≡ ok (exit_code code)
    → (n : ℕ) × (port ≡ negsuc n)
      × (code ≡ 1)
      × ((use_port bind_port c port).lines ≡ no_valid_port ∷ [])
use_port-lines bind_port c (negsuc n) code h = (n, refl, ground (arith, h), refl)
use_port-lines bind_port c (pos n) code h =
    let (m, e, q) =
      >>=-eq-ok (extract_filesystem_map c [])
        (λ m. do bound ← bind_port (to_unsigned_short (to_short n)); ok (serves n m))
        (sym (use_port-outcome bind_port c (pos n)) ∙ h) in
    let (bound, e', q') = >>=-eq-ok (bind_port (to_unsigned_short (to_short n))) _ q in absurd cc

-- the last line of a log
abbrev pub Ends : List Line → Line → Type 0
Ends lines line = (before : List Line) × (lines ≡ before ++ line ∷ [])

module _ (bind_port : ℕ → Run (Unit {0})) (what : Exception → Bytes) (is_relative : Bytes → Bool)
    (file_name : Bytes) (file : Option Bytes) where
  start_server_logged-Explains :
      (p : Parsed) (argc code : ℕ)
      → parse_file is_relative file ≡ ok p
      → start_server bind_port p ≡ ok (exit_code code)
      → (line : Line) × Explains bind_port what is_relative argc file code line
        × Ends (start_server_logged bind_port p).lines line
  unfolding start_server start_server_logged
  start_server_logged-Explains p argc code read h = elim (Bool-cases p.success) [
    | inl good ↦
        let (port, found, h') = >>=-eq-ok (get_port p.config) _ (rw good at h) in
        let (n, q, one, last) =
          use_port-lines bind_port p.config port code
            (use_port-outcome bind_port p.config port ∙ h') in
        (
          no_valid_port,
          rw one (portless p n read (found ∙ ap ok q)),
          (
            (get_port_logged p.config).lines,
            rw (good, get_port_logged-outcome p.config, found)
                (ap (λ ls. (get_port_logged p.config).lines ++ ls) last),
          ),
        )
    | inr bad ↦
        let one : code ≡ 1 = ground (arith, rw bad at h) in
        (not_parsed, rw one (refused p read bad), ([], rw bad refl))
  ]

  abbrev body : Logged Exit
  body = guarded bind_port is_relative file_name file

  body-outcome : body.outcome ≡ (parse_file is_relative file >>= start_server bind_port)
  body-outcome =
      follow-outcome (parse_file_logged is_relative file_name file).outcome
        (start_server_logged bind_port) (start_server bind_port)
        (start_server_logged-outcome bind_port)
      ∙ rw (parse_file_logged-outcome is_relative file_name file) refl

  catch_logged-outcome :
      (lines : List Line) (r : Run Exit) → (catch_logged what lines r).outcome ≡ catch r
  catch_logged-outcome lines (ok e) = refl
  catch_logged-outcome lines (throws x) = refl
  catch_logged-outcome lines undefined = refl
  catch_logged-outcome lines spent = refl

  main_logged-outcome :
      (argc : ℕ)
      → (main_logged bind_port what is_relative argc file_name file).outcome
        ≡ main bind_port is_relative argc file
  unfolding main_logged main
  main_logged-outcome argc = elim (Bool-cases (argc == 2)) [
    | inl two ↦ rw two (catch_logged-outcome body.lines body.outcome ∙ ap catch body-outcome)
    | inr other ↦ rw other refl
  ]

  body-Explains :
      (argc code : ℕ) (r : Run Exit)
      → (parse_file is_relative file >>= start_server bind_port) ≡ r
      → catch r ≡ ok (exit_code code)
      → (line : Line) × Explains bind_port what is_relative argc file code line
        × Ends (catch_logged what body.lines body.outcome).lines line
  body-Explains argc code (ok e) q h =
      let (p, read, started) =
        >>=-eq-ok (parse_file is_relative file) (start_server bind_port) (q ∙ h) in
      let (line, why, (before, last)) = start_server_logged-Explains p argc code read started in
      let m = parse_file_logged is_relative file_name file in
      let o : m.outcome ≡ ok p = parse_file_logged-outcome is_relative file_name file ∙ read in
      (
        line,
        why,
        (
          (parsing ∷ m.lines) ++ before,
          rw (body-outcome ∙ q) (
              rw o (
                ap (λ ls. (parsing ∷ m.lines) ++ ls) last
                ∙ sym (append_assoc (parsing ∷ m.lines) before (line ∷ [])))),
        ),
      )
  body-Explains argc code (throws x) q h =
      let none : code ≡ 0 = ground (arith, h) in
      (caught (what x), rw none (failed x q), (body.lines, rw (body-outcome ∙ q) refl))
  body-Explains argc code undefined q h = absurd cc
  body-Explains argc code spent q h = absurd cc

  -- Where `main` returns a value without having made a server, it does so with its log, whose last
  -- line says why: 1 and the usage where there are not two arguments, 1 where the file is not
  -- parsed, 1 where it gives no port, and 0 where an exception was caught.
  pub main_logged-Explains :
      (argc code : ℕ)
      → main bind_port is_relative argc file ≡ ok (exit_code code)
      → ((main_logged bind_port what is_relative argc file_name file).outcome ≡ ok (exit_code code))
        × ((line : Line) × Explains bind_port what is_relative argc file code line
            × Ends (main_logged bind_port what is_relative argc file_name file).lines line)
  unfolding main_logged main
  main_logged-Explains argc code h = (
    main_logged-outcome argc ∙ h,
    elim (Bool-cases (argc == 2)) [
      | inl two ↦ rw two (body-Explains argc code _ refl (rw two at h))
      | inr other ↦
          let one : code ≡ 1 = ground (arith, rw other at h) in
          (usage, rw one (no_file other), ([], rw other refl))
    ],
  )
