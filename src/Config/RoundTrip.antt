-- ===== src/Config/RoundTrip.antt =====
-- `Parse` reads back what `ToString` writes. Each lemma runs the loop over one piece of the text,
-- with any `rest` behind it.
use server_spring.Base.{
  ℕ, ◌+◌, ◌≡◌, refl, sym, ap, ◌∙◌, [], ◌∷◌, ◌++◌, List, Bool, true, false, append_assoc, append-nil,
  Bytes, arith, ok,
}
use server_spring.Config.Types.{
  NginxConfigStatement, simple, block, NginxConfig, empty, add, of_list, statements,
}
use server_spring.Config.Token.{
  TokenType, start, normal, start_block, end_block, statement_end, parse_token,
}
use server_spring.Config.Token.Reading.{
  parse_token-statement_end, parse_token-start_block, parse_token-end_block,
}
use server_spring.Config.Parser.{
  finish, parse_loop, Statements, inside, may_close, may_finish, parse_from, parse,
}
use server_spring.Config.Parser.Steps.{begins, end_statement, open_brace, close_brace}
use server_spring.Config.Parser.Fuel.{parse_lem}
use server_spring.Config.Printable.{IsWords, IsPrintableStatement, IsPrintable}
use server_spring.Config.Printer.{indent, join, statement_to_string, to_string}
use server_spring.Config.Token.Progress.{parse_token-nil}
use server_spring.Config.Reading.{
  parse_from-eof, parse_from-blank, parse_from-next, parse_from-indent, parse_from-newline,
  read_join,
}

pub of_list-statements : (c : NginxConfig) → of_list (statements c) ≡ c
of_list-statements empty = refl
of_list-statements (add s c) = ap (add s) (of_list-statements c)

abbrev pub end_type : NginxConfigStatement → TokenType
end_type (simple ts) = statement_end
end_type (block ts c) = end_block

abbrev pub last_type : TokenType → NginxConfig → TokenType
last_type last empty = last
last_type last (add s c) = last_type (end_type s) c

-- between two statements
abbrev between : TokenType → Bool
between start_block = true
between end_block = true
between statement_end = true
between _ = false

last_type-between :
    (last : TokenType) (c : NginxConfig) → between last ≡ true → between (last_type last c) ≡ true
last_type-between last empty h = h
last_type-between last (add (simple ts) c) h = last_type-between statement_end c refl
last_type-between last (add (block ts b) c) h = last_type-between end_block c refl

between-may_close : (t : TokenType) → between t ≡ true → may_close t ≡ true
between-may_close t h = ground arith

pub last_type-may_finish :
    (last : TokenType) (c : NginxConfig)
    → may_finish last ≡ true
    → may_finish (last_type last c) ≡ true
last_type-may_finish last empty h = h
last_type-may_finish last (add (simple ts) c) h = last_type-may_finish statement_end c refl
last_type-may_finish last (add (block ts b) c) h = last_type-may_finish end_block c refl

abbrev inner : ℕ → NginxConfig → Bytes → Bytes
inner depth c rest = to_string (depth + 1) c ++ (indent depth ++ (b'}' ∷ b'\n' ∷ rest))

statement_to_string-block :
    (depth : ℕ) (ts : List Bytes) (c : NginxConfig) (rest : Bytes)
    → statement_to_string depth (block ts c) ++ rest
      ≡ indent depth ++ (join ts ++ (b' ' ∷ b'{' ∷ b'\n' ∷ inner depth c rest))
unfolding to_string
statement_to_string-block depth ts c rest = simp append_assoc

statement_to_string-simple :
    (depth : ℕ) (ts : List Bytes) (rest : Bytes)
    → statement_to_string depth (simple ts) ++ rest
      ≡ indent depth ++ (join ts ++ (b';' ∷ b'\n' ∷ rest))
unfolding to_string
statement_to_string-simple depth ts rest = simp append_assoc

read_simple :
    (ts : List Bytes) (depth : ℕ) (rest : Bytes) (last : TokenType) (top : Statements)
    (below : List Statements)
    → IsWords ts
    → begins last ≡ true
    → parse_from (statement_to_string depth (simple ts) ++ rest) last (inside top below)
      ≡ parse_from rest statement_end (inside (top ++ simple ts ∷ []) below)
unfolding parse_token
read_simple ts depth rest last top below p b = rw (statement_to_string-simple depth ts rest) (
    read_join depth ts _ last top below p refl b
    ∙ parse_from-next _ normal _ _ _ _ (parse_token-statement_end _) (end_statement _ _)
    ∙ parse_from-newline rest statement_end _)

-- a block, given that its contents are read
read_block :
    (ts : List Bytes) (c : NginxConfig) (depth : ℕ) (rest : Bytes) (last : TokenType)
    (top : Statements) (below : List Statements)
    → IsWords ts
    → begins last ≡ true
    → ((rest : Bytes) (below : List Statements)
        → parse_from (to_string (depth + 1) c ++ rest) start_block (inside [] below)
          ≡ parse_from rest (last_type start_block c) (inside (statements c) below))
    → parse_from (statement_to_string depth (block ts c) ++ rest) last (inside top below)
      ≡ parse_from rest end_block (inside (top ++ block ts c ∷ []) below)
unfolding parse_token
read_block ts c depth rest last top below p b contents =
    rw (statement_to_string-block depth ts c rest) (
      read_join depth ts _ last top below p refl b
      ∙ parse_from-blank _ normal _
      ∙ parse_from-next _ normal _ _ _ _ (parse_token-start_block _) (open_brace _ top ts below)
      ∙ parse_from-newline _ start_block _
      ∙ contents _ _
      ∙ parse_from-indent depth _ _ _
      ∙ parse_from-next _ _ _ _ _ _ (parse_token-end_block _) (
          close_brace (last_type start_block c) _ (statements c) top ts empty below
            (between-may_close _ (last_type-between start_block c refl)))
      ∙ parse_from-newline rest end_block _
      ∙ ap (λ d. parse_from rest end_block (inside (top ++ block ts d ∷ []) below))
          (of_list-statements c))

begins-end_type : (s : NginxConfigStatement) → begins (end_type s) ≡ true
begins-end_type (simple ts) = refl
begins-end_type (block ts c) = refl

to_string-empty :
    (depth : ℕ) (rest : Bytes) (last : TokenType) (top : Statements) (below : List Statements)
    → parse_from (to_string depth empty ++ rest) last (inside top below)
      ≡ parse_from rest last (inside (top ++ []) below)
unfolding to_string
to_string-empty depth rest last top below = rw append-nil

to_string-add :
    (depth : ℕ) (s : NginxConfigStatement) (c : NginxConfig) (rest : Bytes) (last : TokenType)
    (top : Statements) (below : List Statements)
    → parse_from (to_string depth (add s c) ++ rest) last (inside top below)
      ≡ parse_from
          (statement_to_string depth s ++ (to_string depth c ++ rest))
          last
          (inside top below)
unfolding to_string
to_string-add depth s c rest last top below = rw append_assoc

mutual
  read_statement :
      (s : NginxConfigStatement) (depth : ℕ) (rest : Bytes) (last : TokenType) (top : Statements)
      (below : List Statements)
      → IsPrintableStatement s
      → begins last ≡ true
      → parse_from (statement_to_string depth s ++ rest) last (inside top below)
        ≡ parse_from rest (end_type s) (inside (top ++ s ∷ []) below)
  read_statement (simple ts) depth rest last top below p b =
      read_simple ts depth rest last top below p b
  read_statement (block ts c) depth rest last top below (p, q) b =
      read_block ts c depth rest last top below p b
        (λ rest' below'. read_config c (depth + 1) rest' start_block [] below' q refl)

  read_config :
      (c : NginxConfig) (depth : ℕ) (rest : Bytes) (last : TokenType) (top : Statements)
      (below : List Statements)
      → IsPrintable c
      → begins last ≡ true
      → parse_from (to_string depth c ++ rest) last (inside top below)
        ≡ parse_from rest (last_type last c) (inside (top ++ statements c) below)
  read_config empty depth rest last top below p b = to_string-empty depth rest last top below
  read_config (add s c) depth rest last top below (p, q) b =
      to_string-add depth s c rest last top below
      ∙ read_statement s depth _ last top below p b
      ∙ read_config c depth rest (end_type s) (top ++ s ∷ []) below q (begins-end_type s)
      ∙ ap (λ ss. parse_from rest (last_type (end_type s) c) (inside ss below))
          (append_assoc top (s ∷ []) (statements c))

-- The text of a printable config, at any depth and with anything behind it, puts its statements
-- behind those of the block that is open.
pub parse_from-to_string :
    (c : NginxConfig) (depth : ℕ) (rest : Bytes) (last : TokenType) (top : Statements)
    (below : List Statements)
    → IsPrintable c
    → begins last ≡ true
    → parse_from (to_string depth c ++ rest) last (inside top below)
      ≡ parse_from rest (last_type last c) (inside (top ++ statements c) below)
parse_from-to_string = read_config

pub finish-inside :
    (c : NginxConfig)
    → finish true (inside (statements c) []) ≡ ok (record { success = true; config = c })
unfolding parse_loop
finish-inside c = ap (λ d. ok (record { success = true; config = d })) (of_list-statements c)

-- Parsing what `ToString` wrote of a printable config, at any depth, succeeds and gives the same
-- config back.
pub parse-to_string :
    (c : NginxConfig) (depth : ℕ)
    → IsPrintable c
    → parse (to_string depth c) ≡ ok (record { success = true; config = c })
parse-to_string c depth p =
    parse_lem (to_string depth c)
    ∙ ap (λ s. parse_from s start (inside [] [])) (sym (append-nil (to_string depth c)))
    ∙ parse_from-to_string c depth [] start [] [] p refl
    ∙ parse_from-eof [] (last_type start c) (inside (statements c) []) [] [] parse_token-nil
        (last_type-may_finish start c refl)
    ∙ finish-inside c
