-- ===== src/Jobs/Upload/Paths.antt =====
-- pathlib's `name`, `suffix` and `stem` of a POSIX path, and `str.lower` on ASCII.
use Prim.Native.Char.{Char, code}
use Prim.Native.String.{[], ◌∷◌}
use sirius_vkr.Prelude.{
  ℕ, ◌+◌, Bool, true, false, not, ◌&&◌, ◌||◌, String, Option, none, some, List, map, ◌==◌, leb,
  str_eq, if◌then◌else◌,
}

-- A character put before the first component.
unfoldable pub push : Char → List String → List String
push c List.[] = List.◌∷◌ (c ∷ []) List.[]
push c (List.◌∷◌ w ws) = List.◌∷◌ (c ∷ w) ws

-- The parts between slashes.
unfoldable pub components : String → List String
unfolding push
components [] = List.◌∷◌ "" List.[]
components (c ∷ s) =
    let rest = components s in if code c == b'/' then List.◌∷◌ "" rest else push c rest

-- The last component that is neither empty nor a dot, or the empty text.
unfoldable pub last_name : List String → String
last_name List.[] = ""
last_name (List.◌∷◌ w ws) =
    let rest = last_name ws in if str_eq rest "" then (if str_eq w "." then "" else w) else rest

-- `Path(s).name`
unfoldable pub base_name : String → String
unfolding components last_name
base_name s = last_name (components s)

-- The text before the last dot, and the text from it on.
unfoldable pub split_dot : String → Option (String × String)
split_dot [] = none
split_dot (c ∷ s) = elim (split_dot s) [
  | some (a, b) ↦ some (c ∷ a, b)
  | none ↦ if code c == b'.' then some ([], c ∷ s) else none
]

-- A dot that is first or last parts nothing off.
unfoldable pub parts_off : String × String → Bool
parts_off (a, b) = not (str_eq a "" || str_eq b ".")

-- `Path(name).suffix`
unfoldable pub suffix : String → String
unfolding split_dot parts_off
suffix name = elim (split_dot name) [ none ↦ "" | some (a, b) ↦ if parts_off (a, b) then b else "" ]

-- `Path(name).stem`
unfoldable pub stem : String → String
unfolding split_dot parts_off
stem name = elim (split_dot name) [
  | none ↦ name
  | some (a, b) ↦ if parts_off (a, b) then a else name
]

-- The code points of a text.
abbrev pub codes : String → List ℕ
codes [] = List.[]
codes (c ∷ s) = List.◌∷◌ (code c) (codes s)

-- `str.lower` of one code point
unfoldable pub lower_code : ℕ → ℕ
lower_code n = if leb b'A' n && leb n b'Z' then n + 32 else n

-- `str.lower`, as code points
unfoldable pub lower : String → List ℕ
unfolding lower_code
lower s = map lower_code (codes s)

-- Equality of texts by their code points.
abbrev pub same_codes : List ℕ → List ℕ → Bool
same_codes List.[] List.[] = true
same_codes List.[] (List.◌∷◌ b bs) = false
same_codes (List.◌∷◌ a rest) List.[] = false
same_codes (List.◌∷◌ a rest) (List.◌∷◌ b bs) = a == b && same_codes rest bs
