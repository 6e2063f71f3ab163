-- ===== src/Seed/Translit.antt =====
-- `translit` of seed_demo.py: the table on code points, then `str.lower` on ASCII and Russian
-- letters, which are all that the names of the seed hold.
use Prim.Native.Char.{code}
use Prim.Native.String.{[], ◌∷◌, ◌++◌}
use sirius_vkr.Seed.Letters.{translit_table, lower_table}
use sirius_vkr.Prelude.{
  ◌≡◌, refl, ℕ, zero, suc, ◌/◌, ◌%◌, String, Option, none, some, List, ◌==◌, ltb, if◌then◌else◌,
}

-- A table looked up at a code point.
unfoldable pub entry : ℕ → List (ℕ × String) → Option String
entry n List.[] = none
entry n (List.◌∷◌ (k, s) rest) = if k == n then some s else entry n rest

-- `str.translate`: a character that is not in the table stays.
unfoldable pub translate : List (ℕ × String) → String → String
unfolding entry
translate table [] = []
translate table (c ∷ s) = elim (entry (code c) table) [
  | some t ↦ t ++ translate table s
  | none ↦ c ∷ translate table s
]

unfoldable pub translit : String → String
unfolding translate translit_table lower_table
translit name = translate lower_table (translate translit_table name)

-- `s[:n]`
unfoldable pub prefix : ℕ → String → String
prefix zero s = []
prefix (suc n) [] = []
prefix (suc n) (c ∷ s) = c ∷ prefix n s

abbrev digit : ℕ → String
digit n =
    if n == 0
    then "0"
    else if n == 1
    then "1"
    else if n == 2
    then "2"
    else if n == 3
    then "3"
    else if n == 4
    then "4"
    else if n == 5
    then "5"
    else if n == 6
    then "6"
    else if n == 7
    then "7"
    else if n == 8
    then "8"
    else "9"

-- The decimal digits of a number below 10 to the fuel.
unfoldable pub decimal_of : ℕ → ℕ → String
decimal_of zero n = digit (n % 10)
decimal_of (suc fuel) n =
    let longer = decimal_of fuel (n / 10) ++ digit (n % 10) in if ltb n 10 then digit n else longer

-- `{n}` in an f-string; n digits are enough for n.
unfoldable pub decimal : ℕ → String
unfolding decimal_of
decimal n = decimal_of n n

translit_run : translit "Егор" ≡ "eгор"
unfolding translit entry
translit_run = refl
