-- ===== src/Config/Locations/Shape.antt =====
-- The flat list of the lines in the `location` blocks of the `server` blocks, and the configs on
-- which the methods read nothing that is not there.
use server_spring.Base.{
  ℕ, zero, suc, ◌≤◌, ◌<◌, ◌≡◌, refl, arith, true, false, List, [], ◌∷◌, ◌++◌, Bytes, codes, equal,
  All, length, get_elem?, ok, at, if◌then◌else◌,
}
use server_spring.StdMap.{or_else}
use server_spring.Config.Types.{
  NginxConfigStatement, simple, block, NginxConfig, tokens, statements,
}
use server_spring.Config.Locations.{token}

-- a line of a `location` block: the handler and the path of the block, the path of the line
pub record Entry : Type 0 where
  pub handler : Bytes
  pub location : Bytes
  pub root : Bytes

abbrev pub get_or : List Bytes → ℕ → Bytes
get_or ts i = or_else [] (get_elem? ts i)

abbrev pub line_entries : List Bytes → List NginxConfigStatement → List Entry
line_entries ts [] = []
line_entries ts (l ∷ ls) =
    record { handler = get_or ts 2; location = get_or ts 1; root = get_or (tokens l) 1 }
    ∷ line_entries ts ls

abbrev pub block_entries : NginxConfigStatement → List Entry
block_entries (simple ts) = []
block_entries (block ts c) =
    if equal (get_or ts 0) (codes "location") then line_entries ts (statements c) else []

abbrev pub blocks_entries : List NginxConfigStatement → List Entry
blocks_entries [] = []
blocks_entries (b ∷ bs) = block_entries b ++ blocks_entries bs

abbrev pub server_entries : NginxConfigStatement → List Entry
server_entries (simple ts) = []
server_entries (block ts c) =
    if equal (get_or ts 0) (codes "server") then blocks_entries (statements c) else []

abbrev pub servers_entries : List NginxConfigStatement → List Entry
servers_entries [] = []
servers_entries (s ∷ ss) = server_entries s ++ servers_entries ss

abbrev pub entries : NginxConfig → List Entry
entries c = servers_entries (statements c)

-- A config on which neither method reads past the tokens of a statement or through a null pointer.
abbrev pub IsLine : NginxConfigStatement → Type 0
IsLine l = 2 ≤ length (tokens l)

abbrev pub IsLocation : NginxConfigStatement → Type 0
IsLocation (simple ts) = (1 ≤ length ts) × (equal (get_or ts 0) (codes "location") ≡ false)
IsLocation (block ts c) =
    (1 ≤ length ts)
    × (equal (get_or ts 0) (codes "location") ≡ true → (3 ≤ length ts) × All IsLine (statements c))

abbrev pub IsServer : NginxConfigStatement → Type 0
IsServer (simple ts) = 1 ≤ length ts
IsServer (block ts c) =
    (1 ≤ length ts) × (equal (get_or ts 0) (codes "server") ≡ true → All IsLocation (statements c))

abbrev pub IsShaped : NginxConfig → Type 0
IsShaped c = All IsServer (statements c)

pub token-lt :
    (i : ℕ) (s : NginxConfigStatement)
    → i < length (tokens s)
    → token i s ≡ ok (get_or (tokens s) i)
unfolding token
token-lt i s h = go (tokens s) i h
  where
    go : (ts : List Bytes) (i : ℕ) → i < length ts → at (get_elem? ts i) ≡ ok (get_or ts i)
    go [] i h = elim h [ ]
    go (t ∷ ts) zero h = refl
    go (t ∷ ts) (suc i) h = go ts i (omega arith)
