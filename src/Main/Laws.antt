-- ===== src/Main/Laws.antt =====
-- When a server is started, and on which port.
use server_spring.Base.{
  ◌↔◌, subst, ◌∙◌, ap, sym, ℕ, ◌≤◌, ◌≡◌, refl, arith, Bool, true, Bytes, Option, none, some, Run,
  ok, >>=-eq-ok, ◌==◌, [], Bool-cases, inl, inr,
}
use server_spring.Number.{pos}
use server_spring.Config.Types.{NginxConfig}
use server_spring.Config.Parser.{Parsed, parse}
use server_spring.Config.File.{parse_file}
use server_spring.Config.Port.{get_port}
use server_spring.Config.Port.Laws.{Listens, get_port-PortOf}
use server_spring.Config.Locations.{FilesystemMap, extract_filesystem_map, validate_relative_paths}
use server_spring.Main.{Exit, serves, start_server, catch, main, to_short, to_unsigned_short}

-- What holds where `main` starts a server on `port` with the map `m`.
pub record IsServing (bind_port : ℕ → Run (Unit {0})) (is_relative : Bytes → Bool)
    (file : Option Bytes) (port : ℕ) (m : FilesystemMap) : Type 0 where
  pub text : Bytes
  pub config : NginxConfig
  pub opened : file ≡ some text
  pub parsed : parse text ≡ ok (record { success = true; config = config })
  pub relative : validate_relative_paths is_relative config ≡ ok true
  pub found : get_port config ≡ ok (pos port)
  pub in_range : port ≤ 65535
  pub listens : Listens port config
  pub extracted : extract_filesystem_map config [] ≡ ok m
  pub bound : bind_port port ≡ ok tt

-- A port up to 65535 reaches the endpoint unchanged, though as a `short` it is negative from 32768 on.
pub to_unsigned_short-to_short : (n : ℕ) → n ≤ 65535 → to_unsigned_short (to_short n) ≡ n
unfolding to_unsigned_short to_short
to_unsigned_short-to_short n h = ground arith

start_server-serves :
    (bind_port : ℕ → Run (Unit {0})) (p : Parsed) (port : ℕ) (m : FilesystemMap)
    → start_server bind_port p ≡ ok (serves port m)
    → (p.success ≡ true)
      × (get_port p.config ≡ ok (pos port))
      × (extract_filesystem_map p.config [] ≡ ok m)
      × (bind_port (to_unsigned_short (to_short port)) ≡ ok tt)
unfolding start_server
start_server-serves bind_port p port m h = ground arith

catch-serves :
    (r : Run Exit) (port : ℕ) (m : FilesystemMap)
    → catch r ≡ ok (serves port m)
    → r ≡ ok (serves port m)
catch-serves r port m h = ground arith

parse_file-success :
    (is_relative : Bytes → Bool) (file : Option Bytes) (p : Parsed)
    → parse_file is_relative file ≡ ok p
    → p.success ≡ true
    → (text : Bytes) × (file ≡ some text)
      × (parse text ≡ ok (record { success = true; config = p.config }))
      × (validate_relative_paths is_relative p.config ≡ ok true)
unfolding parse_file
parse_file-success is_relative none p h k = ground arith
parse_file-success is_relative (some text) p h k = (text, refl, ground arith, ground arith)

main_serves :
    (bind_port : ℕ → Run (Unit {0})) (is_relative : Bytes → Bool) (argc : ℕ) (file : Option Bytes)
    (port : ℕ) (m : FilesystemMap)
    → main bind_port is_relative argc file ≡ ok (serves port m)
    → (argc ≡ 2) × IsServing bind_port is_relative file port m
unfolding main
main_serves bind_port is_relative argc file port m h = elim (Bool-cases (argc == 2)) [
  | inl two ↦
      let (p, read, started) =
        >>=-eq-ok (parse_file is_relative file) (start_server bind_port)
          (catch-serves _ port m (rw two at h)) in
      let (good, found, extracted, taken) = start_server-serves bind_port p port m started in
      let (text, opened, parsed, relative) = parse_file-success is_relative file p read good in
      let (in_range, listens) = get_port-PortOf p.config (pos port) found in
      (
        ground arith,
        record {
          text = text;
          config = p.config;
          opened = opened;
          parsed = parsed;
          relative = relative;
          found = found;
          in_range = in_range;
          listens = listens;
          extracted = extracted;
          bound = ap bind_port (sym (to_unsigned_short-to_short port in_range)) ∙ taken;
        },
      )
  | inr other ↦ cc (rw other at h)
]

main_serves_of :
    (bind_port : ℕ → Run (Unit {0})) (is_relative : Bytes → Bool) (file : Option Bytes) (port : ℕ)
    (m : FilesystemMap)
    → IsServing bind_port is_relative file port m
    → main bind_port is_relative 2 file ≡ ok (serves port m)
unfolding main parse_file
main_serves_of bind_port is_relative file port m h =
    rw
      (
        h.opened,
        h.parsed,
        h.relative,
        h.found,
        h.extracted,
        to_unsigned_short-to_short port h.in_range,
        h.bound,
      )
      refl

-- `main` starts a server, on `port` with the map `m`, exactly if it has two arguments, the file was
-- opened and parsed, its paths are relative, `getPort` gives `port`, `m` is the map extracted, and the
-- acceptor is bound to `port`; then `port` is a number up to 65535 that the config names.
pub main-IsServing :
    (bind_port : ℕ → Run (Unit {0})) (is_relative : Bytes → Bool) (argc : ℕ) (file : Option Bytes)
    (port : ℕ) (m : FilesystemMap)
    → (main bind_port is_relative argc file ≡ ok (serves port m))
      ↔ ((argc ≡ 2) × IsServing bind_port is_relative file port m)
main-IsServing bind_port is_relative argc file port m = (
  λ h. main_serves bind_port is_relative argc file port m h,
  λ (two, h).
      subst (λ n. main bind_port is_relative n file ≡ ok (serves port m)) (sym two)
        (main_serves_of bind_port is_relative file port m h),
)
