-- ===== src/Config/Locations/Extracted.antt =====
-- What `extract_filesystem_map` puts into the map.
use server_spring.Base.{
  ◌≤◌, ◌≡◌, refl, ◌∙◌, arith, ◌&&◌, List, [], ◌∷◌, ◌++◌, Bytes, codes, equal, equal_iff, All,
  length, Option, none, some, ok, if◌then◌else◌, Bool-cases, inl, inr,
}
use server_spring.StdMap.{IsSorted, find, insert, or_else}
use server_spring.StdMap.Laws.{
  find-insert, insert-IsSorted, All-alter, find-All, find-alter, alter-IsSorted,
}
use server_spring.Config.Types.{
  NginxConfigStatement, simple, block, NginxConfig, tokens, statements,
}
use server_spring.Config.Locations.{
  FilesystemMap, add_location, extract_lines, extract_location, extract_blocks, extract_child,
  extract_servers, extract_filesystem_map, handle_trailing_slashes,
}
use server_spring.Config.Locations.Shape.{
  Entry, get_or, line_entries, blocks_entries, servers_entries, entries, IsLine, IsLocation,
  IsServer, IsShaped, token-lt,
}

-- the entries put into the map, in order
abbrev add_all : List Entry → FilesystemMap → FilesystemMap
add_all [] m = m
add_all (e ∷ es) m =
    add_all es (add_location e.handler (handle_trailing_slashes e.location) e.root m)

add_all-append :
    (xs ys : List Entry) (m : FilesystemMap) → add_all (xs ++ ys) m ≡ add_all ys (add_all xs m)
add_all-append [] ys m = refl
add_all-append (x ∷ xs) ys m = add_all-append xs ys _

extract_lines_lem :
    (b : NginxConfigStatement) (ls : List NginxConfigStatement) (m : FilesystemMap)
    → 3 ≤ length (tokens b)
    → All IsLine ls
    → extract_lines b ls m ≡ ok (add_all (line_entries (tokens b) ls) m)
unfolding extract_lines
extract_lines_lem b [] m h hs = refl
extract_lines_lem b (l ∷ ls) m h (p, hs) =
    rw (token-lt 1 b (omega arith), token-lt 2 b (omega arith), token-lt 1 l p)
      (extract_lines_lem b ls _ h hs)

extract_blocks_lem :
    (bs : List NginxConfigStatement) (m : FilesystemMap)
    → All IsLocation bs
    → extract_blocks bs m ≡ ok (add_all (blocks_entries bs) m)
unfolding extract_blocks extract_location
extract_blocks_lem [] m h = refl
extract_blocks_lem (simple ts ∷ bs) m ((p, n), h) =
    rw (token-lt 0 (simple ts) p, n) (extract_blocks_lem bs m h)
extract_blocks_lem (block ts c ∷ bs) m ((p, n), h) =
    elim (Bool-cases (equal (get_or ts 0) (codes "location"))) [
      | inl e ↦
          rw
            (
              token-lt 0 (block ts c) p,
              e,
              extract_lines_lem (block ts c) (statements c) m (n e).0 (n e).1,
              add_all-append (line_entries ts (statements c)) (blocks_entries bs) m,
            )
            (extract_blocks_lem bs _ h)
      | inr e ↦ rw (token-lt 0 (block ts c) p, e) (extract_blocks_lem bs m h)
    ]

extract_servers_lem :
    (ss : List NginxConfigStatement) (m : FilesystemMap)
    → All IsServer ss
    → extract_servers ss m ≡ ok (add_all (servers_entries ss) m)
unfolding extract_servers extract_child
extract_servers_lem [] m h = refl
extract_servers_lem (simple ts ∷ ss) m (p, h) =
    elim (Bool-cases (equal (get_or ts 0) (codes "server"))) [
      | inl e ↦ rw (token-lt 0 (simple ts) p, e) (extract_servers_lem ss m h)
      | inr e ↦ rw (token-lt 0 (simple ts) p, e) (extract_servers_lem ss m h)
    ]
extract_servers_lem (block ts c ∷ ss) m ((p, n), h) =
    elim (Bool-cases (equal (get_or ts 0) (codes "server"))) [
      | inl e ↦
          rw
            (
              token-lt 0 (block ts c) p,
              e,
              extract_blocks_lem (statements c) m (n e),
              add_all-append (blocks_entries (statements c)) (servers_entries ss) m,
            )
            (extract_servers_lem ss _ h)
      | inr e ↦ rw (token-lt 0 (block ts c) p, e) (extract_servers_lem ss m h)
    ]

-- the map of the maps: sorted, with sorted maps in it
abbrev pub IsNested : FilesystemMap → Type 0
IsNested m = IsSorted m × All (λ e. IsSorted e.1) m

-- `filesystem_map[handler_type][location_path]`
abbrev pub root_of : Bytes → Bytes → FilesystemMap → Option Bytes
root_of h l m = find l (or_else [] (find h m))

add_location-IsNested :
    (h l r : Bytes) (m : FilesystemMap) → IsNested m → IsNested (add_location h l r m)
add_location-IsNested h l r m (s, a) = (
  alter-IsSorted h _ m s,
  All-alter IsSorted h _ m (insert-IsSorted l r [] tt) (λ v q. insert-IsSorted l r v q) a,
)

root_of-add_location :
    (h l h' l' r : Bytes) (m : FilesystemMap)
    → IsNested m
    → root_of h l (add_location h' l' r m)
      ≡ (if equal h' h && equal l' l then some (or_else r (root_of h l m)) else root_of h l m)
root_of-add_location h l h' l' r m (s, a) = elim (Bool-cases (equal h' h)) [
  | inl e ↦
      rw (find-alter h h' (λ o. insert l' r (or_else [] o)) m s, e)
        (rw ((equal_iff h' h).0 e) (
          find-insert l l' r (or_else [] (find h m)) (find-All IsSorted h [] m tt a)
          ∙ ground (arith, equal_iff l' l)))
  | inr e ↦ rw (find-alter h h' (λ o. insert l' r (or_else [] o)) m s, e)
]

add_all-IsNested : (es : List Entry) (m : FilesystemMap) → IsNested m → IsNested (add_all es m)
add_all-IsNested [] m n = n
add_all-IsNested (e ∷ es) m n = add_all-IsNested es _ (add_location-IsNested e.handler _ e.root m n)

-- the first line for a handler and a location, without regard to slashes at its end
abbrev pub first_root : Bytes → Bytes → List Entry → Option Bytes
first_root h l [] = none
first_root h l (e ∷ es) =
    if equal e.handler h && equal (handle_trailing_slashes e.location) l
    then some e.root
    else first_root h l es

root_of-add_all :
    (h l : Bytes) (es : List Entry) (m : FilesystemMap)
    → IsNested m
    → root_of h l (add_all es m)
      ≡ elim (root_of h l m) [ some r ↦ some r | none ↦ first_root h l es ]
root_of-add_all h l [] m n = ground arith
root_of-add_all h l (e ∷ es) m n =
    let loc = handle_trailing_slashes e.location in
    root_of-add_all h l es (add_location e.handler loc e.root m)
      (add_location-IsNested e.handler loc e.root m n)
    ∙ rw (root_of-add_location h l e.handler loc e.root m n) (ground arith)

-- On a config of the expected shape `extract_filesystem_map`, begun on an empty map, returns a map
-- that gives each handler and location the path of the first line for them.
pub extract_filesystem_map_lem :
    (c : NginxConfig)
    → IsShaped c
    → (m : FilesystemMap) × (extract_filesystem_map c [] ≡ ok m)
      × IsNested m
      × ((h l : Bytes) → root_of h l m ≡ first_root h l (entries c))
unfolding extract_filesystem_map find
extract_filesystem_map_lem c h = (
  add_all (entries c) [],
  extract_servers_lem (statements c) [] h,
  add_all-IsNested (entries c) [] (tt, tt),
  λ h' l. root_of-add_all h' l (entries c) [] (tt, tt),
)
