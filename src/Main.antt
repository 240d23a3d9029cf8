-- ===== src/Main.antt =====
-- `main` of src/server_main.cc, up to the constructor of the server, with the port on its way
-- through `short` into the endpoint (src/server.cc). `bind_port` is the acceptor of boost::asio on a
-- port: it opens, binds and listens, or throws.
pub mod Laws
pub mod Deployed
pub mod Served
pub mod Report
use server_spring.Base.{
  ℕ, ◌+◌, ◌-◌, ◌%◌, ◌^◌, Bytes, Option, Run, ok, throws, undefined, spent, ◌>>=◌, ltb, ◌==◌,
  if◌then◌else◌, [], Bool,
}
use server_spring.Number.{ℤ, pos, negsuc}
use server_spring.Config.Parser.{Parsed}
use server_spring.Config.File.{parse_file}
use server_spring.Config.Port.{get_port}
use server_spring.Config.Locations.{FilesystemMap, extract_filesystem_map}

-- `int` to the parameter `short port`
pub to_short : ℕ → ℤ
to_short n = let m = n % 2 ^ 16 in if ltb m (2 ^ 15) then pos m else negsuc (2 ^ 16 - 1 - m)

-- `short` to the `unsigned short` of `tcp::endpoint`
pub to_unsigned_short : ℤ → ℕ
to_unsigned_short (pos n) = n % 2 ^ 16
to_unsigned_short (negsuc n) = 2 ^ 16 - 1 - n % 2 ^ 16

-- the value that `main` returns before there is a server, or the port and the map of the server
pub data Exit : Type 0 where
  exit_code : ℕ → Exit
  serves : ℕ → FilesystemMap → Exit

-- from the parsed config on; the constructor of `Server` opens and binds the acceptor first
unfoldable pub start_server : (ℕ → Run (Unit {0})) → Parsed → Run Exit
start_server bind_port p =
    if p.success
    then (do
      port ← get_port p.config
      elim port [
        | negsuc n ↦ ok (exit_code 1)
        | pos n ↦ (do
          m ← extract_filesystem_map p.config []
          bound ← bind_port (to_unsigned_short (to_short n))
          ok (serves n m))
      ])
    else ok (exit_code 1)

-- `catch (std::exception& e)`, and `return 0` behind it
abbrev pub catch : Run Exit → Run Exit
catch (throws e) = ok (exit_code 0)
catch (ok r) = ok r
catch undefined = undefined
catch spent = spent

unfoldable pub main : (ℕ → Run (Unit {0})) → (Bytes → Bool) → ℕ → Option Bytes → Run Exit
unfolding start_server
main bind_port is_relative argc file =
    if argc == 2
    then catch (parse_file is_relative file >>= start_server bind_port)
    else ok (exit_code 1)
