-- ===== src/Config/Types.antt =====
-- The parsed tree of a config file (include/config_parser.h).
use server_spring.Base.{List, [], ◌∷◌, Bytes, Option, none, some}

-- A statement is `simple` where `child_block_` is null. A block is the list `statements_`.
mutual
  pub data NginxConfigStatement : Type 0 where
    simple : List Bytes → NginxConfigStatement
    block : List Bytes → NginxConfig → NginxConfigStatement

  pub data NginxConfig : Type 0 where
    empty : NginxConfig
    add : NginxConfigStatement → NginxConfig → NginxConfig

abbrev pub of_list : List NginxConfigStatement → NginxConfig
of_list [] = empty
of_list (s ∷ ss) = add s (of_list ss)

abbrev pub statements : NginxConfig → List NginxConfigStatement
statements empty = []
statements (add s c) = s ∷ statements c

abbrev pub tokens : NginxConfigStatement → List Bytes
tokens (simple ts) = ts
tokens (block ts c) = ts

abbrev pub child_block : NginxConfigStatement → Option NginxConfig
child_block (simple ts) = none
child_block (block ts c) = some c
