-- ===== src/Config/Comments.antt =====
-- Comments in a config.
use server_spring.Base.{◌≡◌, ◌≢◌, ◌⊎◌, refl, ok, ℕ, ◌∷◌, ◌++◌, Bytes, All}
use server_spring.Config.Token.{TokenType, comment}
use server_spring.Config.Token.Reading.{parse_token-comment}
use server_spring.Config.Parser.{ConfigStack, next, take_token, parse_from, parse_loop}
use server_spring.Config.Reading.{parse_from-next}

skip :
    (last : TokenType) (stack : ConfigStack) (v : Bytes)
    → take_token last stack comment v ≡ ok (next last stack)
unfolding parse_loop
skip last stack v = refl

-- A comment between two tokens, up to the line feed or carriage return behind it, makes no
-- difference, whatever was read before it.
pub parse_from-comment :
    (body : Bytes) (e : ℕ) (s : Bytes) (last : TokenType) (stack : ConfigStack)
    → All (λ d. (d ≢ b'\n') × (d ≢ b'\r')) body
    → (e ≡ b'\n') ⊎ (e ≡ b'\r')
    → parse_from (b'#' ∷ (body ++ e ∷ s)) last stack ≡ parse_from s last stack
parse_from-comment body e s last stack h k =
    parse_from-next _ last stack _ _ _ (parse_token-comment body e s h k) (skip last stack _)
