-- ===== src/Config/Parser/Report.antt =====
-- The line that `Parse` writes to the log where it returns false (src/config_parser.cc).
use server_spring.Base.{
  ℕ, zero, suc, ◌≡◌, refl, sym, ◌∙◌, subst, true, false, Bool, List, [], ◌∷◌, ◌++◌, Bytes, codes,
  length, Run, ok, throws, undefined, spent, ok-injective, inl,
}
use server_spring.Log.{Severity, Line, logged, Logged, follow}
use server_spring.Config.Token.{
  TokenType, start, normal, start_block, end_block, comment, statement_end, eof, error, parse_token,
}
use server_spring.Config.Parser.{
  ConfigStack, inside, Step, next, broken, accepted, take_token, Parsed, finish, settle_step,
  parse_loop, parse_from, parse,
}
use server_spring.Config.Parser.Stack.{Reads, begun, read, finish_lem}
use server_spring.Config.Parser.Stuck.{Reads-IsHeld}
use server_spring.Config.Parser.Grammar.{may_follow, take_token-Leaves}

-- `TokenTypeAsString`
pub token_type_as_string : TokenType → Bytes
token_type_as_string start = codes "TOKEN_TYPE_START"
token_type_as_string normal = codes "TOKEN_TYPE_NORMAL"
token_type_as_string start_block = codes "TOKEN_TYPE_START_BLOCK"
token_type_as_string end_block = codes "TOKEN_TYPE_END_BLOCK"
token_type_as_string comment = codes "TOKEN_TYPE_COMMENT"
token_type_as_string statement_end = codes "TOKEN_TYPE_STATEMENT_END"
token_type_as_string eof = codes "TOKEN_TYPE_EOF"
token_type_as_string error = codes "TOKEN_TYPE_ERROR"

pub bad_transition : TokenType → TokenType → Line
bad_transition last_token_type token_type = logged Severity.error (
    codes "  "
    ++ (codes "Bad transition from "
        ++ (token_type_as_string last_token_type
            ++ (codes "to" ++ token_type_as_string token_type))))

-- what follows a round: the next one, or the end, behind `break` with the line
abbrev resume_logged :
    TokenType
    → TokenType
    → ConfigStack
    → (TokenType → ConfigStack → Logged Parsed)
    → Step
    → Logged Parsed
resume_logged last type old loop (next last' stack) = loop last' stack
resume_logged last type old loop broken = record {
  lines = bad_transition last type ∷ [];
  outcome = finish false old;
}
resume_logged last type old loop accepted = record { lines = []; outcome = finish true old }

-- `Parse` with its log: the loop, on the fuel of `parse_loop`
pub loop_logged : ℕ → Bytes → TokenType → ConfigStack → Logged Parsed
loop_logged zero input last stack = record { lines = []; outcome = spent }
loop_logged (suc fuel) input last stack =
    let l = parse_token input in
    follow (take_token last stack l.type l.value)
      (resume_logged last l.type stack (loop_logged fuel l.rest))

pub parse_logged : Bytes → Logged Parsed
parse_logged input = loop_logged (suc (length input)) input start (inside [] [])

follow_lem :
    (m : Run Step) (last type : TokenType) (old : ConfigStack)
    (f : TokenType → ConfigStack → Logged Parsed) (g : TokenType → ConfigStack → Run Parsed)
    → ((l : TokenType) (s : ConfigStack) → (f l s).outcome ≡ g l s)
    → (follow m (resume_logged last type old f)).outcome ≡ settle_step m old g
follow_lem (ok (next l s)) last type old f g h = h l s
follow_lem (ok broken) last type old f g h = refl
follow_lem (ok accepted) last type old f g h = refl
follow_lem (throws e) last type old f g h = refl
follow_lem undefined last type old f g h = refl
follow_lem spent last type old f g h = refl

loop_logged-outcome :
    (fuel : ℕ) (input : Bytes) (last : TokenType) (stack : ConfigStack)
    → (loop_logged fuel input last stack).outcome ≡ parse_loop fuel input last stack
unfolding loop_logged parse_loop
loop_logged-outcome zero input last stack = refl
loop_logged-outcome (suc fuel) input last stack =
    let l = parse_token input in
    follow_lem (take_token last stack l.type l.value) last l.type stack _ _
      (λ l' s'. loop_logged-outcome fuel l.rest l' s')

pub parse_logged-outcome : (input : Bytes) → (parse_logged input).outcome ≡ parse input
unfolding parse_logged parse parse_from
parse_logged-outcome input = loop_logged-outcome (suc (length input)) input start (inside [] [])

-- What the lines say: nothing of a text that is accepted, and of one that is not, the last token
-- and the one behind it that may not follow it.
abbrev pub Tells : Bytes → Bool → List Line → Type 0
Tells input true lines = lines ≡ []
Tells input false lines =
    (rest : Bytes) × (last : TokenType) × (stack : ConfigStack) × Reads input rest last stack
    × (may_follow last ((parse_token rest).type) ≡ false)
    × (lines ≡ bad_transition last ((parse_token rest).type) ∷ [])

follow-Tells :
    (input rest : Bytes) (last : TokenType) (stack : ConfigStack) (m : Run Step)
    (loop : TokenType → ConfigStack → Logged Parsed) (p : Parsed)
    → Reads input rest last stack
    → take_token last stack (parse_token rest).type (parse_token rest).value ≡ m
    → ((l : TokenType) (s : ConfigStack)
        → Reads input (parse_token rest).rest l s
        → (loop l s).outcome ≡ ok p
        → Tells input p.success (loop l s).lines)
    → (follow m (resume_logged last (parse_token rest).type stack loop)).outcome ≡ ok p
    → Tells input p.success (follow m (resume_logged last (parse_token rest).type stack loop)).lines
follow-Tells input rest last stack (ok (next l s)) loop p r e ih u = ih l s (read r e) u
follow-Tells input rest last stack (ok broken) loop p r e ih u =
    let (c, q) = finish_lem false last stack (Reads-IsHeld r) in
    subst (λ (p : Parsed). Tells input p.success (bad_transition last (parse_token rest).type ∷ []))
      (ok-injective (sym q ∙ u))
      (rest, last, stack, r, take_token-Leaves last stack _ _ broken (inl refl) e, refl)
follow-Tells input rest last stack (ok accepted) loop p r e ih u =
    let (c, q) = finish_lem true last stack (Reads-IsHeld r) in
    subst (λ (p : Parsed). Tells input p.success []) (ok-injective (sym q ∙ u)) refl
follow-Tells input rest last stack (throws x) loop p r e ih u = absurd cc
follow-Tells input rest last stack undefined loop p r e ih u = absurd cc
follow-Tells input rest last stack spent loop p r e ih u = absurd cc

loop_logged-Tells :
    (input : Bytes) (fuel : ℕ) (rest : Bytes) (last : TokenType) (stack : ConfigStack) (p : Parsed)
    → Reads input rest last stack
    → (loop_logged fuel rest last stack).outcome ≡ ok p
    → Tells input p.success (loop_logged fuel rest last stack).lines
unfolding loop_logged
loop_logged-Tells input zero rest last stack p r u = absurd cc
loop_logged-Tells input (suc fuel) rest last stack p r u =
    let l = parse_token rest in
    follow-Tells input rest last stack _ (loop_logged fuel l.rest) p r refl
      (λ l' s'. loop_logged-Tells input fuel l.rest l' s' p) u

-- `Parse` with its log ends as `Parse` does. Where it returns true it writes no line, and where it
-- returns false one, which names the last token and a token behind it that may not follow it.
pub parse_logged-Tells :
    (input : Bytes) (p : Parsed)
    → parse input ≡ ok p
    → ((parse_logged input).outcome ≡ ok p) × Tells input p.success (parse_logged input).lines
unfolding parse parse_from parse_logged
parse_logged-Tells input p h =
    let e = parse_logged-outcome input ∙ h in
    (e, loop_logged-Tells input (suc (length input)) input start (inside [] []) p begun e)
