-- ===== src/FileSystem/Real/Listing.antt =====
-- The text that `get_file_list` makes of the entries of a directory.
use server_spring.Base.{
  ◌+◌, ◌-◌, ◌%◌, ◌^◌, ◌<◌, ◌≡◌, refl, ap, ◌∙◌, arith, List, [], ◌∷◌, ◌++◌, append_assoc, append-nil,
  Bytes, codes, take, length, length-append,
}
use server_spring.FileSystem.{drop_separator}
use server_spring.FileSystem.Real.{listed, list_text}

-- the texts with ", " between each two of them
abbrev pub separated : List Bytes → Bytes
separated [] = []
separated (s ∷ []) = s
separated (s ∷ t ∷ ss) = s ++ (codes ", " ++ separated (t ∷ ss))

take-append : (xs ys : Bytes) → take (length xs) (xs ++ ys) ≡ xs
take-append [] ys = refl
take-append (x ∷ xs) ys = ap (◌∷◌ x) (take-append xs ys)

listed-separated :
    (s : Bytes) (ss : List Bytes) → listed (s ∷ ss) ≡ separated (s ∷ ss) ++ codes ", "
unfolding listed
listed-separated s [] = simp append-nil
listed-separated s (t ∷ ss) = rw (listed-separated t ss) (simp append_assoc)

drop_separator-append : (t : Bytes) → length t + 2 < 2 ^ 64 → drop_separator (t ++ codes ", ") ≡ t
unfolding codes
drop_separator-append t h =
    let size : (length (t ++ codes ", ") + 2 ^ 64 - 2) % 2 ^ 64 ≡ length t =
      omega (arith, length-append {0} t (codes ", ")) in
    rw size (take-append t (codes ", "))

-- The list is in brackets, with ", " between each two stems and none behind the last, if the text
-- has a length below 2^64; of no stems it is "[]".
pub list_text-separated :
    (stems : List Bytes)
    → length (listed stems) + 1 < 2 ^ 64
    → list_text stems ≡ codes "[" ++ (separated stems ++ codes "]")
unfolding list_text listed codes
list_text-separated [] h = refl
list_text-separated (s ∷ ss) h =
    let t = codes "[" ++ separated (s ∷ ss) in
    let e : codes "[" ++ listed (s ∷ ss) ≡ t ++ codes ", " =
      ap (λ l. codes "[" ++ l) (listed-separated s ss) in
    ap (λ l. drop_separator l ++ codes "]") e
    ∙ ap (λ l. l ++ codes "]")
        (drop_separator-append t
          (omega (arith, h, ap (length {0}) e, length-append {0} t (codes ", "))))
