-- ===== src/Main/Served.antt =====
-- The program on the text of a config, from `main` (src/server_main.cc) to the file that a static
-- location sends (src/request_handler/static_handler.cc).
use server_spring.Base.{
  ℕ, zero, suc, ◌<◌, ◌≡◌, inl, inr, refl, sym, ◌∙◌, ap, arith, Bool, true, [], ◌∷◌, ◌++◌, Bytes,
  codes, c_str, take, drop, length, some, Run, Bool, ok, throws, undefined, spent, ◌>>=◌,
}
use server_spring.Number.{pos}
use server_spring.Http.{Request, Response, Library, Machine}
use server_spring.FileSystem.{FileSystem}
use server_spring.Config.Types.{NginxConfig}
use server_spring.Config.Printable.{IsPrintable}
use server_spring.Config.Printer.{to_string}
use server_spring.Config.Port.{get_port}
use server_spring.Config.Locations.{FilesystemMap}
use server_spring.Config.Locations.Shape.{entries, IsShaped}
use server_spring.Config.Locations.Relative.{all_relative}
use server_spring.Handlers.Files.{replace_first, target_path, send_file, handle_static}
use server_spring.Handlers.Files.Sent.{IsSent, send_file-IsSent}
use server_spring.Routes.{RequestHandlerFactory, static_factory, create, create_factory_map}
use server_spring.Routes.Matching.{Begins}
use server_spring.Delegate.{handle_request, process_request}
use server_spring.Main.{serves, main}
use server_spring.Main.Deployed.{configured, NoneBeyond, IsMatched, main-process_request}

take-drop : (n : ℕ) (s : Bytes) → s ≡ take n s ++ drop n s
take-drop zero s = refl
take-drop (suc n) [] = refl
take-drop (suc n) (c ∷ s) = ap (λ t. c ∷ t) (take-drop n s)

Begins-rest :
    (location uri : Bytes) → Begins location uri → uri ≡ location ++ drop (length location) uri
Begins-rest location uri b =
    take-drop (length location) uri ∙ ap (λ l. l ++ drop (length location) uri) (sym b)

-- the longest location that begins the URI, if it has a byte, is the one that is matched
unique :
    (c : NginxConfig) (uri l l' : Bytes) (f f' : RequestHandlerFactory)
    → configured c l ≡ some f
    → Begins l uri
    → NoneBeyond c uri (length l)
    → 0 < length l
    → IsMatched c uri l' f'
    → (l' ≡ l) × (f' ≡ f)
unique c uri l l' f f' found b none h q = elim q.best [
  | inl (b', none') ↦
      let same : length l' ≡ length l = ground (arith, none l' f' q.found b', none' l f found b) in
      let e : l' ≡ l = b' ∙ ap (λ n. take n uri) same ∙ sym b in
      let found' : configured c l ≡ some f' = rw⁻¹ e q.found in (e, cc)
  | inr (_, none') ↦ absurd (ground (arith, none' l f found b, h))
]

-- the response of a run, in a state that stays
abbrev pub answered : {S : Type 0} → S → Run (Bool × Response) → Run (Response × S)
answered s run = do (success, answer) ← run; ok (answer, s)

answered_lem :
    {S : Type 0} (s : S) (run : Run (Bool × Response))
    → ◌>>=◌ {B = Response × S}
        (◌>>=◌ {B = Bool × Response × S} run (λ x. ok (x.0, x.1, s)))
        (λ x. ok (x.1, x.2))
      ≡ answered s run
answered_lem s (ok x) = refl
answered_lem s (throws e) = refl
answered_lem s undefined = refl
answered_lem s spent = refl

module _ {S : Type 0} (lib : Library) (machine : Machine S) (fs : FileSystem S) where
  static_lem :
      (r : Request) (response : Response) (s : S) (location root : Bytes)
      → (run : Run (Bool × Response)) × (◌>>=◌ {B = Response × S}
            (handle_request lib machine fs (create (static_factory location root)) r response s)
            (λ x. ok (x.1, x.2))
          ≡ answered s run)
        × IsSent lib machine (target_path location root r.target) s run
  unfolding handle_request create handle_static
  static_lem r response s location root =
      let path = target_path location root r.target in
      let run = send_file lib machine path s response in
      (run, answered_lem s run, send_file-IsSent lib machine path s response)

  -- On the text of a printable config of the expected shape, whose paths are relative and for which
  -- `getPort` gives a port that the acceptor can be bound to, `main` serves on that port, and there a request whose target begins with
  -- a location of one byte or more that has a static handler, and with none that is longer, is
  -- answered from the file at the path of the location, "/", and the rest of the target, the first
  -- byte of all that replaced by "../": with the file and a line feed, its length, and the type of
  -- its extension, or with 404 where there is no such file or it does not open. The state stays.
  -- Where the question for the file fails, as for a name that is too long, so does the request.
  pub main-IsSent :
      (bind_port : ℕ → Run (Unit {0})) (is_relative : Bytes → Bool) (c : NginxConfig)
      (depth port : ℕ) (text : Bytes) (r : Request) (response : Response) (s : S)
      (location root : Bytes)
      → IsPrintable c
      → IsShaped c
      → all_relative is_relative (entries c) ≡ true
      → get_port c ≡ ok (pos port)
      → bind_port port ≡ ok tt
      → lib.parse_request text ≡ some r
      → configured c location ≡ some (static_factory location root)
      → Begins location (c_str r.target)
      → NoneBeyond c (c_str r.target) (length location)
      → 0 < length location
      → (m : FilesystemMap) × (rest : Bytes) × (run : Run (Bool × Response)) × (main bind_port
            is_relative 2
            (some (to_string depth c))
          ≡ ok (serves port m))
        × (c_str r.target ≡ location ++ rest)
        × (process_request lib machine fs (create_factory_map m) text response s ≡ answered s run)
        × IsSent lib machine (replace_first (root ++ (codes "/" ++ rest))) s run
  unfolding target_path
  main-IsSent bind_port is_relative c depth port text r response s location root p shaped rel got
        bound parsed found b none h =
      let (m, l, f, served, matched, runs) =
        main-process_request lib machine fs bind_port is_relative c depth port text r response s p
          shaped rel got bound parsed in
      let (_, same) = unique c (c_str r.target) location l _ f found b none h matched in
      let (run, e, is_sent) = static_lem r response s location root in
      (
        m,
        drop (length location) (c_str r.target),
        run,
        served,
        Begins-rest location (c_str r.target) b,
        runs ∙ rw same e,
        is_sent,
      )
