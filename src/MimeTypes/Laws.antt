-- ===== src/MimeTypes/Laws.antt =====
-- `extension_to_type` against its table.
use server_spring.Base.{
  ◌≡◌, ◌≢◌, ◌⊎◌, inl, inr, refl, arith, false, Bytes, codes, equal, equal_iff, List, [], ◌∷◌, All,
  Bool-cases,
}
use server_spring.MimeTypes.{mappings, find_type, extension_to_type}

-- a row of the table
pub data IsRow (extension mime_type : Bytes) : List (Bytes × Bytes) → Type 0 where
  here : {ms : List (Bytes × Bytes)} → IsRow extension mime_type ((extension, mime_type) ∷ ms)
  there :
      {m : Bytes × Bytes} {ms : List (Bytes × Bytes)}
      → IsRow extension mime_type ms
      → IsRow extension mime_type (m ∷ ms)

-- the type of a row, or "text/plain" where the extension is in none
abbrev TypeIn : List (Bytes × Bytes) → Bytes → Bytes → Type 0
TypeIn ms extension t =
    IsRow extension t ms ⊎ (All (λ m. m.0 ≢ extension) ms × (t ≡ codes "text/plain"))

abbrev pub IsTypeOf : Bytes → Bytes → Type 0
IsTypeOf extension t = TypeIn mappings extension t

TypeIn-there :
    (ms : List (Bytes × Bytes)) (e t extension t' : Bytes)
    → equal e extension ≡ false
    → TypeIn ms extension t'
    → TypeIn ((e, t) ∷ ms) extension t'
TypeIn-there ms e t extension t' q (inl row) = inl (there row)
TypeIn-there ms e t extension t' q (inr (none, p)) =
    inr ((λ same. ground (arith, q, equal_iff e extension, same), none), p)

find_type-TypeIn :
    (ms : List (Bytes × Bytes)) (extension : Bytes) → TypeIn ms extension (find_type ms extension)
unfolding find_type
find_type-TypeIn [] extension = inr (tt, refl)
find_type-TypeIn ((e, t) ∷ ms) extension = elim (Bool-cases (equal e extension)) [
  | inl q ↦ rw (q, (equal_iff e extension).0 q) (inl here)
  | inr q ↦ rw q (TypeIn-there ms e t extension _ q (find_type-TypeIn ms extension))
]

pub extension_to_type-IsTypeOf :
    (extension : Bytes) → IsTypeOf extension (extension_to_type extension)
unfolding extension_to_type
extension_to_type-IsTypeOf extension = find_type-TypeIn mappings extension
