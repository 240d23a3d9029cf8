-- ===== src/Config/Printer.antt =====
-- `ToString` of NginxConfig and NginxConfigStatement (src/config_parser.cc).
use server_spring.Base.{ℕ, zero, suc, ◌+◌, List, [], ◌∷◌, ◌++◌, Bytes}
use server_spring.Config.Types.{NginxConfigStatement, simple, block, NginxConfig, empty, add}

-- two spaces for each level
unfoldable pub indent : ℕ → Bytes
indent zero = []
indent (suc depth) = b' ' ∷ b' ' ∷ indent depth

-- the tokens but the first, a space before each
unfoldable pub join_rest : List Bytes → Bytes
join_rest [] = []
join_rest (t ∷ ts) = b' ' ∷ (t ++ join_rest ts)

unfoldable pub join : List Bytes → Bytes
join [] = []
join (t ∷ ts) = t ++ join_rest ts

unfoldable mutual
  pub statement_to_string : ℕ → NginxConfigStatement → Bytes
  statement_to_string depth (simple ts) = indent depth ++ (join ts ++ (b';' ∷ b'\n' ∷ []))
  statement_to_string depth (block ts c) =
      indent depth
      ++ (join ts
          ++ (b' '
              ∷ b'{'
              ∷ b'\n'
              ∷ (to_string (depth + 1) c ++ (indent depth ++ (b'}' ∷ b'\n' ∷ [])))))

  pub to_string : ℕ → NginxConfig → Bytes
  to_string depth empty = []
  to_string depth (add s c) = statement_to_string depth s ++ to_string depth c
