-- ===== src/Config/Parser/Grammar.antt =====
-- Which texts `Parse` accepts, and which it rejects: what may follow what.
use server_spring.Base.{
  ℕ, zero, suc, ◌≡◌, ◌≢◌, ◌↔◌, ◌⊎◌, inl, inr, refl, ◌∙◌, sym, ap, subst, arith, Bool, true, false,
  [], Bytes, length, Run, ok, throws, undefined, spent, ◌>>=◌, ok-injective, Bool-cases,
  if◌then◌else◌,
}
use server_spring.Config.Types.{NginxConfig}
use server_spring.Config.Token.{
  TokenType, start, normal, start_block, end_block, comment, statement_end, eof, error, parse_token,
}
use server_spring.Config.Parser.{
  ConfigStack, inside, Step, next, broken, accepted, take_token, may_be_word, is_word, may_close,
  may_finish, Parsed, finish, settle_step, parse_loop, parse_from, parse,
}
use server_spring.Config.Parser.Fuel.{parse_from_lem}
use server_spring.Config.Parser.Stack.{Reads, begun, read, finish_lem}
use server_spring.Config.Parser.Stuck.{Reads-IsHeld, Reads-parse}

-- The grammar, by the last token that was no comment: a statement is words and a semicolon, or words
-- and a block in braces.
abbrev pub may_follow : TokenType → TokenType → Bool
may_follow last comment = true
may_follow start normal = true
may_follow normal normal = true
may_follow start_block normal = true
may_follow end_block normal = true
may_follow statement_end normal = true
may_follow normal statement_end = true
may_follow normal start_block = true
may_follow start_block end_block = true
may_follow end_block end_block = true
may_follow statement_end end_block = true
may_follow start eof = true
may_follow end_block eof = true
may_follow statement_end eof = true
may_follow _ _ = false

-- the loop gets to the end of the text where it may stand, or to a token where it may not
abbrev pub Verdict : Bytes → Bool → Type 0
Verdict input true =
    (rest : Bytes) × (last : TokenType) × (stack : ConfigStack) × Reads input rest last stack
    × ((parse_token rest).type ≡ eof)
    × (may_follow last eof ≡ true)
Verdict input false =
    (rest : Bytes) × (last : TokenType) × (stack : ConfigStack) × Reads input rest last stack
    × (may_follow last ((parse_token rest).type) ≡ false)

next-ne :
    (t : TokenType) (m : Run ConfigStack) (s : Step)
    → (s ≡ broken) ⊎ (s ≡ accepted)
    → ◌>>=◌ {B = Step} m (λ stack. ok (next t stack)) ≢ ok s
next-ne t (ok stack) s (inl e) h = ground (arith, e, h)
next-ne t (ok stack) s (inr e) h = ground (arith, e, h)
next-ne t (throws x) s e h = cc
next-ne t undefined s e h = cc
next-ne t spent s e h = cc

-- what a token does, by the grammar
take_token-refused :
    (last : TokenType) (stack : ConfigStack) (type : TokenType) (v : Bytes)
    → may_follow last type ≡ false
    → take_token last stack type v ≡ ok broken
unfolding take_token
take_token-refused last stack error v h = refl
take_token-refused last stack start v h = refl
take_token-refused last stack comment v h = absurd cc
take_token-refused last stack normal v h =
    let e : may_be_word last ≡ false = ground (arith, h) in rw e refl
take_token-refused last stack statement_end v h =
    let e : is_word last ≡ false = ground (arith, h) in rw e refl
take_token-refused last stack start_block v h =
    let e : is_word last ≡ false = ground (arith, h) in rw e refl
take_token-refused last stack end_block v h =
    let e : may_close last ≡ false = ground (arith, h) in rw e refl
take_token-refused last stack eof v h =
    let e : may_finish last ≡ false = ground (arith, h) in rw e refl

-- a round that leaves the loop, behind a guard
left-guard :
    (b : Bool) (t : TokenType) (m : Run ConfigStack) (s : Step)
    → (s ≡ broken) ⊎ (s ≡ accepted)
    → (if b then ◌>>=◌ {B = Step} m (λ stack. ok (next t stack)) else ok broken) ≡ ok s
    → (b ≡ false) × (s ≡ broken)
left-guard true t m s e h = absurd (next-ne t m s e h)
left-guard false t m s e h = (refl, sym (ok-injective h))

-- what a round that leaves the loop says of its token
abbrev Leaves : TokenType → TokenType → Step → Type 0
Leaves last type broken = may_follow last type ≡ false
Leaves last type accepted = (type ≡ eof) × (may_follow last eof ≡ true)
Leaves last type (next _ _) = Unit

refuses :
    (last type : TokenType) (s : Step)
    → may_follow last type ≡ false
    → s ≡ broken
    → Leaves last type s
refuses last type s h e = rw e h

pub take_token-Leaves :
    (last : TokenType) (stack : ConfigStack) (type : TokenType) (v : Bytes) (s : Step)
    → (s ≡ broken) ⊎ (s ≡ accepted)
    → take_token last stack type v ≡ ok s
    → Leaves last type s
unfolding take_token
take_token-Leaves last stack error v s o h =
    refuses last error s (ground arith) (sym (ok-injective h))
take_token-Leaves last stack start v s o h =
    refuses last start s (ground arith) (sym (ok-injective h))
take_token-Leaves last stack comment v s o h = absurd (next-ne last (ok stack) s o h)
take_token-Leaves last stack normal v s o h =
    let (e, q) = left-guard (may_be_word last) normal _ s o h in
    refuses last normal s (ground (arith, e)) q
take_token-Leaves last stack statement_end v s o h =
    let (e, q) = left-guard (is_word last) statement_end (ok stack) s o h in
    refuses last statement_end s (ground (arith, e)) q
take_token-Leaves last stack start_block v s o h =
    let (e, q) = left-guard (is_word last) start_block _ s o h in
    refuses last start_block s (ground (arith, e)) q
take_token-Leaves last stack end_block v s o h =
    let (e, q) = left-guard (may_close last) end_block _ s o h in
    refuses last end_block s (ground (arith, e)) q
take_token-Leaves last stack eof v s o h = elim (Bool-cases (may_finish last)) [
  | inl e ↦ let q : s ≡ accepted = sym (ok-injective (rw e at h)) in rw q (refl, ground (arith, e))
  | inr e ↦
      let q : s ≡ broken = sym (ok-injective (rw e at h)) in
      refuses last eof s (ground (arith, e)) q
]

take_token-accepted :
    (last : TokenType) (stack : ConfigStack) (type : TokenType) (v : Bytes)
    → type ≡ eof
    → may_follow last eof ≡ true
    → take_token last stack type v ≡ ok accepted
unfolding take_token
take_token-accepted last stack type v t h =
    let e : may_finish last ≡ true = ground (arith, h) in rw (t, e) refl

settle-Verdict :
    (input rest : Bytes) (last : TokenType) (stack : ConfigStack) (m : Run Step)
    (loop : TokenType → ConfigStack → Run Parsed) (p : Parsed)
    → Reads input rest last stack
    → take_token last stack (parse_token rest).type (parse_token rest).value ≡ m
    → ((l : TokenType) (s : ConfigStack)
        → Reads input (parse_token rest).rest l s
        → loop l s ≡ ok p
        → Verdict input p.success)
    → settle_step m stack loop ≡ ok p
    → Verdict input p.success
settle-Verdict input rest last stack (ok (next l s)) loop p r e ih u = ih l s (read r e) u
settle-Verdict input rest last stack (ok broken) loop p r e ih u =
    let (c, q) = finish_lem false last stack (Reads-IsHeld r) in
    subst (λ (p : Parsed). Verdict input p.success) (ok-injective (sym q ∙ u))
      (rest, last, stack, r, take_token-Leaves last stack _ _ broken (inl refl) e)
settle-Verdict input rest last stack (ok accepted) loop p r e ih u =
    let (c, q) = finish_lem true last stack (Reads-IsHeld r) in
    let (t, f) = take_token-Leaves last stack _ _ accepted (inr refl) e in
    subst (λ (p : Parsed). Verdict input p.success) (ok-injective (sym q ∙ u))
      (rest, last, stack, r, t, f)
settle-Verdict input rest last stack (throws x) loop p r e ih u = absurd cc
settle-Verdict input rest last stack undefined loop p r e ih u = absurd cc
settle-Verdict input rest last stack spent loop p r e ih u = absurd cc

parse_loop-Verdict :
    (input : Bytes) (fuel : ℕ) (rest : Bytes) (last : TokenType) (stack : ConfigStack) (p : Parsed)
    → Reads input rest last stack
    → parse_loop fuel rest last stack ≡ ok p
    → Verdict input p.success
unfolding parse_loop
parse_loop-Verdict input zero rest last stack p r u = absurd cc
parse_loop-Verdict input (suc fuel) rest last stack p r u =
    let l = parse_token rest in
    settle-Verdict input rest last stack _ (parse_loop fuel l.rest) p r refl
      (λ l' s'. parse_loop-Verdict input fuel l.rest l' s' p) u

-- the end of the loop that a verdict speaks of
Reads-ends :
    (input rest : Bytes) (last : TokenType) (stack : ConfigStack) (s : Step) (success : Bool)
    → Reads input rest last stack
    → take_token last stack (parse_token rest).type (parse_token rest).value ≡ ok s
    → ((loop : TokenType → ConfigStack → Run Parsed)
        → settle_step (ok s) stack loop ≡ finish success stack)
    → (c : NginxConfig) × (parse input ≡ ok (record { success = success; config = c }))
Reads-ends input rest last stack s success r e out =
    let (c, q) = finish_lem success last stack (Reads-IsHeld r) in
    let loop = parse_from (parse_token rest).rest in
    (
      c,
      Reads-parse r
          ∙ parse_from_lem rest last stack
          ∙ ap (λ m. settle_step m stack loop) e
          ∙ out loop
          ∙ q,
    )

Verdict-parse :
    (input : Bytes) (success : Bool)
    → Verdict input success
    → (c : NginxConfig) × (parse input ≡ ok (record { success = success; config = c }))
Verdict-parse input true (rest, last, stack, r, t, f) =
    Reads-ends input rest last stack accepted true r (take_token-accepted last stack _ _ t f)
      (λ loop. refl)
Verdict-parse input false (rest, last, stack, r, f) =
    Reads-ends input rest last stack broken false r (take_token-refused last stack _ _ f)
      (λ loop. refl)

-- `Parse` returns true exactly on the texts whose tokens follow one another as the grammar says, up
-- to an end of file where it may stand, and false exactly on those with a token where it may not
-- stand; in both cases the text before that token is read without undefined behaviour.
pub parse-Verdict :
    (input : Bytes) (success : Bool)
    → ((c : NginxConfig) × (parse input ≡ ok (record { success = success; config = c })))
      ↔ Verdict input success
unfolding parse parse_from
parse-Verdict input success = (
  λ (c, u).
      parse_loop-Verdict input (suc (length input)) input start (inside [] [])
        (record { success = success; config = c }) begun u,
  Verdict-parse input success,
)
