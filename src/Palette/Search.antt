-- ===== src/Palette/Search.antt =====
-- `std::string::find` and `substr`. A position is `none` where C++ has `npos`.
use server_spring.Base.{
  ℕ, ◌+◌, Bool, true, false, ◌&&◌, [], ◌∷◌, Bytes, ltb, ◌==◌, length, take, drop, Option, none,
  some, Run, ok, throws, out_of_range, if◌then◌else◌,
}

unfoldable pub starts_with : Bytes → Bytes → Bool
starts_with [] s = true
starts_with (c ∷ needle) [] = false
starts_with (c ∷ needle) (d ∷ s) = c == d && starts_with needle s

abbrev pub shift : ℕ → Option ℕ → Option ℕ
shift n none = none
shift n (some i) = some (n + i)

-- `s.find(needle)`
unfoldable pub find : Bytes → Bytes → Option ℕ
unfolding starts_with
find needle [] = if starts_with needle [] then some 0 else none
find needle (c ∷ s) = if starts_with needle (c ∷ s) then some 0 else shift 1 (find needle s)

-- `s.find(needle, pos)`
unfoldable pub find_from : Bytes → Bytes → ℕ → Option ℕ
unfolding find
find_from needle s position =
    if ltb (length s) position then none else shift position (find needle (drop position s))

-- `s.substr(pos, n)` and `s.substr(pos)`
unfoldable pub substr : Bytes → ℕ → ℕ → Run Bytes
substr s position n =
    if ltb (length s) position then throws out_of_range else ok (take n (drop position s))

unfoldable pub substr_from : Bytes → ℕ → Run Bytes
substr_from s position =
    if ltb (length s) position then throws out_of_range else ok (drop position s)
