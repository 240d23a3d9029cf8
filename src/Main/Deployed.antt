-- ===== src/Main/Deployed.antt =====
-- The program on the text of a config, from `main` (src/server_main.cc) to the handler that answers
-- a request (src/request_handler_delegate.cc).
use server_spring.Base.{
  ℕ, ◌≤◌, ◌≡◌, ◌⊎◌, inl, inr, refl, sym, ◌∙◌, true, [], ◌∷◌, Bytes, codes, c_str, length, equal,
  equal_iff, Bool, Option, some, Run, ok, ◌>>=◌, Bool-cases,
}
use server_spring.Number.{pos}
use server_spring.StdMap.{find}
use server_spring.Http.{Request, Response, Library, Machine}
use server_spring.FileSystem.{FileSystem}
use server_spring.Config.Types.{NginxConfig}
use server_spring.Config.Printable.{IsPrintable}
use server_spring.Config.Printer.{to_string}
use server_spring.Config.RoundTrip.{parse-to_string}
use server_spring.Config.Port.{get_port}
use server_spring.Config.Locations.{FilesystemMap, extract_filesystem_map}
use server_spring.Config.Locations.Shape.{entries, IsShaped}
use server_spring.Config.Locations.Relative.{all_relative, validate_relative_paths_lem}
use server_spring.Config.Locations.Extracted.{first_root}
use server_spring.Config.File.{parse_file}
use server_spring.Routes.{
  RequestHandlerFactory, error_factory, static_factory, api_factory, create, Routes, builtin_routes,
  create_factory_map, longest_prefix_matching,
}
use server_spring.Routes.Builtin.{otherwise, made, error-IsFound}
use server_spring.Routes.Configured.{create_factory_map-extract}
use server_spring.Routes.Matching.{
  Begins, HasKey, here, there, longest, fallback, IsLongest, longest_prefix_matching-IsLongest,
}
use server_spring.Delegate.{handle_request, process_request}
use server_spring.Delegate.Safety.{HasKey-IsFound}
use server_spring.Config.Port.Laws.{get_port-PortOf}
use server_spring.Main.{serves, main}
use server_spring.Main.Laws.{to_unsigned_short-to_short}

-- the factory of a location, by the lines of the config
abbrev pub configured : NginxConfig → Bytes → Option RequestHandlerFactory
configured c l = otherwise (find l builtin_routes) (
    otherwise (made static_factory l (first_root (codes "StaticHandler") l (entries c)))
      (made api_factory l (first_root (codes "ApiHandler") l (entries c))))

-- no location of the config that begins the URI is longer than `n`
abbrev pub NoneBeyond : NginxConfig → Bytes → ℕ → Type 0
NoneBeyond c uri n =
    (l : Bytes) (f : RequestHandlerFactory) → configured c l ≡ some f → Begins l uri → length l ≤ n

-- `location` is the longest of the config that begins the URI, or "/" where none of one byte or
-- more does, and `f` is its factory.
pub record IsMatched (c : NginxConfig) (uri location : Bytes) (f : RequestHandlerFactory)
    : Type 0 where
  pub found : configured c location ≡ some f
  pub best :
      (Begins location uri × NoneBeyond c uri (length location))
      ⊎ ((location ≡ codes "/") × NoneBeyond c uri 0)

find-HasKey :
    (key : Bytes) (routes : Routes) (f : RequestHandlerFactory)
    → find key routes ≡ some f
    → HasKey key routes
unfolding find
find-HasKey key [] f h = absurd cc
find-HasKey key ((k, g) ∷ rs) f h = elim (Bool-cases (equal k key)) [
  | inl e ↦ rw (sym ((equal_iff k key).0 e)) here
  | inr e ↦ there (find-HasKey key rs f (rw e at h))
]

module _ (c : NginxConfig) (m : FilesystemMap)
    (same : (l : Bytes) → find l (create_factory_map m) ≡ configured c l) where
  matched :
      (uri location : Bytes)
      → IsLongest (create_factory_map m) uri location
      → (f : RequestHandlerFactory) × (find location (create_factory_map m) ≡ some f)
        × IsMatched c uri location f
  matched uri location (longest k b h l) =
      let (f, found) = HasKey-IsFound k in
      (
        f,
        found,
        record {
          found = sym (same location) ∙ found;
          best = inl (b, λ l' f' e. l l' (find-HasKey l' _ f' (same l' ∙ e)));
        },
      )
  matched uri location (fallback q l) =
      let found : find location (create_factory_map m) ≡ some error_factory =
        rw q (error-IsFound m) in
      (
        error_factory,
        found,
        record {
          found = sym (same location) ∙ found;
          best = inr (q, λ l' f' e. l l' (find-HasKey l' _ f' (same l' ∙ e)));
        },
      )

main_lem :
    (bind_port : ℕ → Run (Unit {0})) (is_relative : Bytes → Bool) (c : NginxConfig) (depth port : ℕ)
    (m : FilesystemMap)
    → IsPrintable c
    → IsShaped c
    → all_relative is_relative (entries c) ≡ true
    → get_port c ≡ ok (pos port)
    → bind_port port ≡ ok tt
    → extract_filesystem_map c [] ≡ ok m
    → main bind_port is_relative 2 (some (to_string depth c)) ≡ ok (serves port m)
unfolding main parse_file
main_lem bind_port is_relative c depth port m p shaped rel found bound extracted =
    rw
      (
        parse-to_string c depth p,
        validate_relative_paths_lem is_relative c shaped,
        rel,
        found,
        extracted,
        to_unsigned_short-to_short port ((get_port-PortOf c (pos port) found).0),
        bound,
      )
      refl

module _ {S : Type 0} (lib : Library) (machine : Machine S) (fs : FileSystem S) where
  -- On the text of a printable config of the expected shape, whose paths are relative and for which
  -- `getPort` gives a port that the acceptor can be bound to, `main` serves on that port, and there every request that is parsed is
  -- answered by the handler of the longest location of the config that begins its target, or of
  -- "/" where no location of one byte or more does.
  pub main-process_request :
      (bind_port : ℕ → Run (Unit {0})) (is_relative : Bytes → Bool) (c : NginxConfig)
      (depth port : ℕ) (text : Bytes) (r : Request) (response : Response) (s : S)
      → IsPrintable c
      → IsShaped c
      → all_relative is_relative (entries c) ≡ true
      → get_port c ≡ ok (pos port)
      → bind_port port ≡ ok tt
      → lib.parse_request text ≡ some r
      → (m : FilesystemMap) × (location : Bytes) × (f : RequestHandlerFactory) × (main bind_port
            is_relative 2
            (some (to_string depth c))
          ≡ ok (serves port m))
        × IsMatched c (c_str r.target) location f
        × (process_request lib machine fs (create_factory_map m) text response s ≡ (do
          (status, response', s') ← handle_request lib machine fs (create f) r response s
          ok (response', s')))
  unfolding process_request
  main-process_request bind_port is_relative c depth port text r response s p shaped rel found bound
        parsed =
      let (m, extracted, same) = create_factory_map-extract c shaped in
      let location = longest_prefix_matching (create_factory_map m) (c_str r.target) in
      let (f, routed, is_matched) =
        matched c m same (c_str r.target) location
          (longest_prefix_matching-IsLongest (create_factory_map m) (c_str r.target)) in
      (
        m,
        location,
        f,
        main_lem bind_port is_relative c depth port m p shaped rel found bound extracted,
        is_matched,
        rw (parsed, routed) refl,
      )
