-- ===== src/Config/Defects.antt =====
-- Texts that `Parse` accepts or runs into undefined behaviour on: a brace that is never closed, a
-- brace too many, and a last word with no delimiter behind it.
use server_spring.Base.{
  zero, ℕ, ◌≡◌, ◌≢◌, refl, sym, ap, ◌∙◌, [], ◌∷◌, ◌++◌, List, true, false, append-nil, Bytes, All,
  ok, undefined,
}
use server_spring.Config.Types.{simple, block, NginxConfig, empty, add, statements}
use server_spring.Config.Token.{
  TokenType, start, normal, start_block, end_block, statement_end, Lexeme, is_delimiter,
}
use server_spring.Config.Token.Reading.{
  parse_token-start_block, parse_token-end_block, parse_token-unfinished,
}
use server_spring.Config.Token.Progress.{parse_token-nil}
use server_spring.Config.Parser.{
  finish, Statements, inside, popped, take_token, settle_step, next, may_finish, may_close,
  parse_from, parse, parse_loop,
}
use server_spring.Config.Parser.Fuel.{parse_from_lem, parse_lem}
use server_spring.Config.Parser.Steps.{open_brace}
use server_spring.Config.Printable.{is_special, IsToken, IsWords, IsPrintable}
use server_spring.Config.Printer.{indent, join, to_string}
use server_spring.Config.Reading.{
  parse_from-eof, Delimited, read_token, parse_from-blank, parse_from-next, parse_from-newline,
  read_join,
}
use server_spring.Config.RoundTrip.{
  last_type, last_type-may_finish, of_list-statements, parse_from-to_string, finish-inside,
}

last_type-may_close :
    (last : TokenType) (c : NginxConfig)
    → may_close last ≡ true
    → may_close (last_type last c) ≡ true
last_type-may_close last empty h = h
last_type-may_close last (add (simple ts) c) h = last_type-may_close statement_end c refl
last_type-may_close last (add (block ts b) c) h = last_type-may_close end_block c refl

last_type-add :
    (last : TokenType) (c : NginxConfig)
    → c ≢ empty
    → (may_finish (last_type last c) ≡ true) × (may_close (last_type last c) ≡ true)
last_type-add last empty n = absurd (n refl)
last_type-add last (add (simple ts) c) n =
    (last_type-may_finish statement_end c refl, last_type-may_close statement_end c refl)
last_type-add last (add (block ts b) c) n =
    (last_type-may_finish end_block c refl, last_type-may_close end_block c refl)

finish-open :
    (ts : List Bytes) (c : NginxConfig)
    → finish true (inside (statements c) ((block ts empty ∷ []) ∷ []))
      ≡ ok (record { success = true; config = add (block ts c) empty })
unfolding parse_loop
finish-open ts c =
    ap (λ d. ok (record { success = true; config = add (block ts d) empty })) (of_list-statements c)

-- A block that is never closed is accepted, with all that it holds, if it holds a statement.
pub parse-unclosed_block :
    (ts : List Bytes) (c : NginxConfig) (depth : ℕ)
    → IsWords ts
    → IsPrintable c
    → c ≢ empty
    → parse (join ts ++ (b' ' ∷ b'{' ∷ b'\n' ∷ to_string depth c))
      ≡ ok (record { success = true; config = add (block ts c) empty })
unfolding indent is_delimiter
parse-unclosed_block ts c depth p q n =
    parse_lem _
    ∙ read_join zero ts _ start [] [] p refl refl
    ∙ parse_from-blank _ normal _
    ∙ parse_from-next _ normal _ _ _ _ (parse_token-start_block _) (open_brace _ [] ts [])
    ∙ parse_from-newline _ start_block _
    ∙ ap (λ s. parse_from s start_block (inside [] ((block ts empty ∷ []) ∷ [])))
        (sym (append-nil (to_string depth c)))
    ∙ parse_from-to_string c depth [] start_block [] _ q refl
    ∙ parse_from-eof [] _ _ [] [] parse_token-nil (last_type-add start_block c n).0
    ∙ finish-open ts c

-- A last word with no delimiter behind it is dropped, and the text is accepted.
pub parse-unfinished_word :
    (c : NginxConfig) (depth w : ℕ) (ws : Bytes)
    → IsPrintable c
    → is_special w ≡ false
    → All (λ d. is_delimiter d ≡ false) ws
    → parse (to_string depth c ++ w ∷ ws) ≡ ok (record { success = true; config = c })
parse-unfinished_word c depth w ws p h hs =
    parse_lem _
    ∙ parse_from-to_string c depth (w ∷ ws) start [] [] p refl
    ∙ parse_from-eof (w ∷ ws) _ _ _ _ (parse_token-unfinished w ws h hs)
        (last_type-may_finish start c refl)
    ∙ finish-inside c

popped_word :
    (t : Bytes) (root : Statements) → take_token end_block (popped root) normal t ≡ undefined
unfolding parse_loop
popped_word t root = refl

closing :
    (last : TokenType) (v : Bytes) (top : Statements)
    → may_close last ≡ true
    → take_token last (inside top []) end_block v ≡ ok (next end_block (popped top))
unfolding parse_loop
closing last v top h = rw h

-- A brace too many empties the stack of blocks; any word behind it is then undefined behaviour.
pub parse-extra_brace :
    (c : NginxConfig) (depth : ℕ) {t : Bytes} (rest : Bytes)
    → IsPrintable c
    → c ≢ empty
    → IsToken t
    → Delimited rest
    → parse (to_string depth c ++ (b'}' ∷ b'\n' ∷ (t ++ rest))) ≡ undefined
parse-extra_brace c depth {t} rest p n q h =
    parse_lem _
    ∙ parse_from-to_string c depth _ start [] [] p refl
    ∙ parse_from-next _ _ _ _ _ _ (parse_token-end_block _)
        (closing _ _ (statements c) (last_type-add start c n).1)
    ∙ parse_from-newline _ end_block _
    ∙ parse_from_lem (t ++ rest) end_block _
    ∙ ap
        (λ (l : Lexeme).
          settle_step (take_token end_block (popped (statements c)) l.type l.value)
            (popped (statements c)) (parse_from l.rest))
        (read_token rest q h)
    ∙ ap (λ m. settle_step m (popped (statements c)) (parse_from rest))
        (popped_word t (statements c))
