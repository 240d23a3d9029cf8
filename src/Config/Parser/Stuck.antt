-- ===== src/Config/Parser/Stuck.antt =====
-- The one way in which `Parse` is undefined.
use server_spring.Base.{
  ℕ, zero, suc, ◌≡◌, ◌↔◌, ◌⊎◌, inl, inr, refl, ◌∙◌, ap, subst, arith, Bool, true, false, [], Bytes,
  length, Run, ok, undefined,
}
use server_spring.Config.Token.{TokenType, normal, end_block, start, parse_token}
use server_spring.Config.Parser.{
  Statements, ConfigStack, inside, popped, Step, next, broken, accepted, take_token, take_word,
  close_block, Parsed, finish, settle_step, parse_loop, parse_from, parse,
}
use server_spring.Config.Parser.Fuel.{parse_lem, parse_from_lem}
use server_spring.Config.Parser.Stack.{
  Reads, begun, read, IsHeld, finish_lem, Round, goes_on, left, stuck, take_token-Round,
}

-- the loop gets to a word, or to a brace that closes a block, with the root popped
abbrev pub IsStuck : Bytes → Type 0
IsStuck input =
    (rest : Bytes) × (last : TokenType) × (root : Statements) × Reads input rest last (popped root)
    × (((parse_token rest).type ≡ normal) ⊎ ((parse_token rest).type ≡ end_block))

finish-ne-undefined :
    (success : Bool) (last : TokenType) (stack : ConfigStack)
    → IsHeld last stack
    → finish success stack ≡ undefined
    → ⊥
finish-ne-undefined success last stack h e = let (p, q) = finish_lem success last stack h in cc

settle-IsStuck :
    (input rest : Bytes) (last : TokenType) (stack : ConfigStack) (m : Run Step)
    (loop : TokenType → ConfigStack → Run Parsed)
    → Reads input rest last stack
    → IsHeld last stack
    → take_token last stack (parse_token rest).type (parse_token rest).value ≡ m
    → Round stack (parse_token rest).type m
    → ((l : TokenType) (s : ConfigStack)
        → Reads input (parse_token rest).rest l s
        → IsHeld l s
        → loop l s ≡ undefined
        → IsStuck input)
    → settle_step m stack loop ≡ undefined
    → IsStuck input
settle-IsStuck input rest last stack _ loop r h e (goes_on l s k) ih u = ih l s (read r e) k u
settle-IsStuck input rest last stack _ loop r h e (left broken out) ih u =
    absurd (finish-ne-undefined false last stack h u)
settle-IsStuck input rest last stack _ loop r h e (left accepted out) ih u =
    absurd (finish-ne-undefined true last stack h u)
settle-IsStuck input rest last stack _ loop r h e (left (next l s) out) ih u =
    absurd (ground (arith, out))
settle-IsStuck input rest last stack _ loop r h e (stuck root p t) ih u =
    (rest, last, root, subst (Reads input rest last) p r, t)

parse_loop-IsStuck :
    (input : Bytes) (fuel : ℕ) (rest : Bytes) (last : TokenType) (stack : ConfigStack)
    → Reads input rest last stack
    → IsHeld last stack
    → parse_loop fuel rest last stack ≡ undefined
    → IsStuck input
unfolding parse_loop
parse_loop-IsStuck input zero rest last stack r h u = absurd cc
parse_loop-IsStuck input (suc fuel) rest last stack r h u =
    let l = parse_token rest in
    settle-IsStuck input rest last stack _ (parse_loop fuel l.rest) r h refl
      (take_token-Round last stack l.type l.value h)
      (λ l' s'. parse_loop-IsStuck input fuel l.rest l' s') u

-- a step that goes on with a stack that is held
abbrev HeldStep : Run Step → Type 0
HeldStep (ok (next last stack)) = IsHeld last stack
HeldStep _ = Unit

Round-HeldStep :
    {stack : ConfigStack} {type : TokenType} (m : Run Step) → Round stack type m → HeldStep m
Round-HeldStep _ (goes_on l s h) = h
Round-HeldStep _ (left broken h) = tt
Round-HeldStep _ (left accepted h) = tt
Round-HeldStep _ (left (next l s) h) = absurd (ground (arith, h))
Round-HeldStep _ (stuck root p t) = tt

pub Reads-IsHeld :
    {input rest : Bytes} {last : TokenType} {stack : ConfigStack}
    → Reads input rest last stack
    → IsHeld last stack
Reads-IsHeld begun = (tt, λ e. absurd (ground (arith, e)))
Reads-IsHeld (read {last = last} {stack = stack} r e) =
    subst HeldStep e (Round-HeldStep _ (take_token-Round last stack _ _ (Reads-IsHeld r)))

pub Reads-parse :
    {input rest : Bytes} {last : TokenType} {stack : ConfigStack}
    → Reads input rest last stack
    → parse input ≡ parse_from rest last stack
Reads-parse {input} begun = parse_lem input
Reads-parse (read {rest} {last} {stack = stack} r e) =
    Reads-parse r
    ∙ parse_from_lem rest last stack
    ∙ ap (λ m. settle_step m stack (parse_from (parse_token rest).rest)) e

popped-undefined :
    (last : TokenType) (root : Statements) (type : TokenType) (v : Bytes)
    → last ≡ end_block
    → (type ≡ normal) ⊎ (type ≡ end_block)
    → take_token last (popped root) type v ≡ undefined
unfolding take_token take_word close_block
popped-undefined last root type v e (inl q) = rw (e, q) refl
popped-undefined last root type v e (inr q) = rw (e, q) refl

-- `Parse` is undefined on exactly the texts in which its braces close the root and then a word or
-- one more closing brace is read: the stack is empty then, and everywhere else it holds what the
-- loop takes from it.
pub parse-IsStuck : (input : Bytes) → (parse input ≡ undefined) ↔ IsStuck input
unfolding parse
parse-IsStuck input = (
  λ u.
      parse_loop-IsStuck input (suc (length input)) input start (inside [] []) begun
        (Reads-IsHeld {input = input} begun) u,
  λ (rest, last, root, r, t).
      let l = parse_token rest in
      Reads-parse r
      ∙ parse_from_lem rest last (popped root)
      ∙ ap (λ m. settle_step m (popped root) (parse_from l.rest))
          (popped-undefined last root l.type l.value (Reads-IsHeld r) t),
)
