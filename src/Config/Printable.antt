-- ===== src/Config/Printable.antt =====
-- The configs that `ToString` writes in a form that can be read back.
use server_spring.Base.{ℕ, Bool, false, ◌||◌, ◌≡◌, ◌≢◌, ◌⊎◌, List, [], ◌∷◌, ◌++◌, Bytes, All, ◌==◌}
use server_spring.Config.Types.{NginxConfigStatement, simple, block, NginxConfig, empty, add}
use server_spring.Config.Token.{is_delimiter, is_space}

-- a byte at which a word cannot start
abbrev pub is_special : ℕ → Bool
is_special c =
    c == b'{' || c == b'}' || c == b'#' || c == b'"' || c == b'\'' || c == b';' || is_space c

-- A word, or a string in quotes that holds no quote of its kind and no backslash.
pub data IsToken : Bytes → Type 0 where
  plain :
      {c : ℕ} {s : Bytes}
      → is_special c ≡ false
      → All (λ d. is_delimiter d ≡ false) s
      → IsToken (c ∷ s)
  quoted :
      {q : ℕ} (s : Bytes)
      → (q ≡ b'"') ⊎ (q ≡ b'\'')
      → All (λ d. (d ≢ q) × (d ≢ b'\\')) s
      → IsToken (q ∷ (s ++ q ∷ []))

abbrev pub IsWords : List Bytes → Type 0
IsWords [] = ⊥
IsWords (t ∷ ts) = IsToken t × All IsToken ts

abbrev mutual
  pub IsPrintableStatement : NginxConfigStatement → Type 0
  IsPrintableStatement (simple ts) = IsWords ts
  IsPrintableStatement (block ts c) = IsWords ts × IsPrintable c

  pub IsPrintable : NginxConfig → Type 0
  IsPrintable empty = Unit
  IsPrintable (add s c) = IsPrintableStatement s × IsPrintable c
