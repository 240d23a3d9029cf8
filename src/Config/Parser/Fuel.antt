-- ===== src/Config/Parser/Fuel.antt =====
-- The fuel of `parse_loop` does not matter once it exceeds the length of the stream, and the loop
-- without fuel is the equation `parse_from_lem`.
use server_spring.Base.{
  ℕ, zero, suc, ◌<◌, [], ◌∷◌, ◌≡◌, refl, arith, Bytes, length, Run, ok, throws, undefined, spent,
  Bool-cases, inl, inr,
}
use server_spring.Config.Token.{TokenType, start, eof, parse_token}
use server_spring.Config.Token.Progress.{parse_token-le, parse_token-nil}
use server_spring.Config.Parser.{
  ConfigStack, Step, next, broken, accepted, Parsed, take_token, may_finish, settle_step,
  parse_loop, parse_from, parse, inside,
}

settle_step_congr :
    (m : Run Step) (old : ConfigStack) (f g : TokenType → ConfigStack → Run Parsed)
    → ((last : TokenType) (stack : ConfigStack) → f last stack ≡ g last stack)
    → settle_step m old f ≡ settle_step m old g
settle_step_congr (ok (next last stack)) old f g h = h last stack
settle_step_congr (ok broken) old f g h = refl
settle_step_congr (ok accepted) old f g h = refl
settle_step_congr (throws e) old f g h = refl
settle_step_congr undefined old f g h = refl
settle_step_congr spent old f g h = refl

pub settle_step-eof :
    (last : TokenType) (stack : ConfigStack) (token : Bytes)
    (f g : TokenType → ConfigStack → Run Parsed)
    → settle_step (take_token last stack eof token) stack f
      ≡ settle_step (take_token last stack eof token) stack g
unfolding take_token
settle_step-eof last stack token f g = elim (Bool-cases (may_finish last)) [
  | inl e ↦ rw e refl
  | inr e ↦ rw e refl
]

fuel_enough :
    (f g : ℕ) (input : Bytes) (last : TokenType) (stack : ConfigStack)
    → length input < f
    → length input < g
    → parse_loop f input last stack ≡ parse_loop g input last stack
unfolding parse_loop
fuel_enough zero g input last stack h k = absurd (omega arith)
fuel_enough (suc f) zero input last stack h k = absurd (omega arith)
fuel_enough (suc f) (suc g) [] last stack h k =
    rw parse_token-nil (settle_step-eof last stack [] _ _)
fuel_enough (suc f) (suc g) (c ∷ s) last stack h k =
    let l = parse_token (c ∷ s) in
    settle_step_congr (take_token last stack l.type l.value) stack _ _ (λ last' stack'.
      fuel_enough f g l.rest last' stack' (omega (arith, parse_token-le c s))
        (omega (arith, parse_token-le c s)))

pub parse_from_lem :
    (input : Bytes) (last : TokenType) (stack : ConfigStack)
    → parse_from input last stack
      ≡ settle_step
          (take_token last stack (parse_token input).type (parse_token input).value)
          stack
          (parse_from (parse_token input).rest)
unfolding parse_from
parse_from_lem [] last stack = settle_step-eof last stack [] _ _
parse_from_lem (c ∷ s) last stack =
    let l = parse_token (c ∷ s) in
    settle_step_congr (take_token last stack l.type l.value) stack _ _ (λ last' stack'.
      fuel_enough (length (c ∷ s)) (suc (length l.rest)) l.rest last' stack'
        (omega (arith, parse_token-le c s)) (omega arith))

pub parse_lem : (input : Bytes) → parse input ≡ parse_from input start (inside [] [])
unfolding parse
parse_lem input = refl
