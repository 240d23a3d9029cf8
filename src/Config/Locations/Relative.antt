-- ===== src/Config/Locations/Relative.antt =====
-- What `validate_relative_paths` returns.
use server_spring.Base.{
  ◌≡◌, refl, arith, Bool, true, ◌&&◌, List, [], ◌∷◌, ◌++◌, Bytes, codes, equal, All, ok, Bool-cases,
  inl, inr,
}
use server_spring.Config.Types.{NginxConfigStatement, simple, block, NginxConfig, statements}
use server_spring.Config.Locations.{
  check_lines, check_location, check_blocks, check_child, check_servers, validate_relative_paths,
}
use server_spring.Config.Locations.Shape.{
  Entry, get_or, line_entries, blocks_entries, servers_entries, entries, IsLine, IsLocation,
  IsServer, IsShaped, token-lt,
}

module _ (is_relative : Bytes → Bool) where
  abbrev pub all_relative : List Entry → Bool
  all_relative [] = true
  all_relative (e ∷ es) = is_relative e.root && all_relative es

  all_relative-append :
      (xs ys : List Entry) → all_relative (xs ++ ys) ≡ (all_relative xs && all_relative ys)
  all_relative-append [] ys = refl
  all_relative-append (x ∷ xs) ys = ground (arith, all_relative-append xs ys)

  check_lines_lem :
      (ts : List Bytes) (ls : List NginxConfigStatement)
      → All IsLine ls
      → check_lines is_relative ls ≡ ok (all_relative (line_entries ts ls))
  unfolding check_lines
  check_lines_lem ts [] h = refl
  check_lines_lem ts (l ∷ ls) (p, h) = rw (token-lt 1 l p, check_lines_lem ts ls h) (ground arith)

  check_blocks_lem :
      (bs : List NginxConfigStatement)
      → All IsLocation bs
      → check_blocks is_relative bs ≡ ok (all_relative (blocks_entries bs))
  unfolding check_blocks check_location
  check_blocks_lem [] h = refl
  check_blocks_lem (simple ts ∷ bs) ((p, n), h) =
      rw (token-lt 0 (simple ts) p, n) (check_blocks_lem bs h)
  check_blocks_lem (block ts c ∷ bs) ((p, n), h) =
      elim (Bool-cases (equal (get_or ts 0) (codes "location"))) [
        | inl e ↦
            rw
              (
                token-lt 0 (block ts c) p,
                e,
                check_lines_lem ts (statements c) (n e).1,
                check_blocks_lem bs h,
                all_relative-append (line_entries ts (statements c)) (blocks_entries bs),
              )
              (ground arith)
        | inr e ↦ rw (token-lt 0 (block ts c) p, e) (check_blocks_lem bs h)
      ]

  check_servers_lem :
      (ss : List NginxConfigStatement)
      → All IsServer ss
      → check_servers is_relative ss ≡ ok (all_relative (servers_entries ss))
  unfolding check_servers check_child
  check_servers_lem [] h = refl
  check_servers_lem (simple ts ∷ ss) (p, h) =
      rw (token-lt 0 (simple ts) p, check_servers_lem ss h) (ground arith)
  check_servers_lem (block ts c ∷ ss) ((p, n), h) =
      elim (Bool-cases (equal (get_or ts 0) (codes "server"))) [
        | inl e ↦
            rw
              (
                token-lt 0 (block ts c) p,
                e,
                check_blocks_lem (statements c) (n e),
                check_servers_lem ss h,
                all_relative-append (blocks_entries (statements c)) (servers_entries ss),
              )
              (ground arith)
        | inr e ↦ rw (token-lt 0 (block ts c) p, e) (check_servers_lem ss h)
      ]

  -- On a config of the expected shape `validate_relative_paths` returns, and returns whether the
  -- path of every line of every `location` block in a `server` block is relative.
  pub validate_relative_paths_lem :
      (c : NginxConfig)
      → IsShaped c
      → validate_relative_paths is_relative c ≡ ok (all_relative (entries c))
  unfolding validate_relative_paths
  validate_relative_paths_lem c h = check_servers_lem (statements c) h
