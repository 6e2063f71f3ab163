-- ===== src/Seed/Letters.antt =====
-- The letters of `_TRANSLIT` of seed_demo.py, and of `str.lower`.
use sirius_vkr.Prelude.{ℕ, String, List, [], ◌∷◌}

-- The entries of `_TRANSLIT`, by code point.
unfoldable pub translit_table : List (ℕ × String)
translit_table =
    (1040, "A")
    ∷ (1041, "B")
    ∷ (1042, "V")
    ∷ (1043, "G")
    ∷ (1044, "D")
    ∷ (1045, "E")
    ∷ (1046, "Zh")
    ∷ (1047, "Z")
    ∷ (1048, "I")
    ∷ (1050, "K")
    ∷ (1051, "L")
    ∷ (1052, "M")
    ∷ (1053, "N")
    ∷ (1054, "O")
    ∷ (1055, "P")
    ∷ (1056, "R")
    ∷ (1057, "S")
    ∷ (1058, "T")
    ∷ (1059, "U")
    ∷ (1060, "F")
    ∷ (1061, "H")
    ∷ (1062, "C")
    ∷ (1063, "Ch")
    ∷ (1064, "Sh")
    ∷ (1069, "E")
    ∷ (1070, "Yu")
    ∷ (1071, "Ya")
    ∷ []

-- `str.lower` of the capital letters, by code point.
unfoldable pub lower_table : List (ℕ × String)
lower_table =
    (65, "a")
    ∷ (66, "b")
    ∷ (67, "c")
    ∷ (68, "d")
    ∷ (69, "e")
    ∷ (70, "f")
    ∷ (71, "g")
    ∷ (72, "h")
    ∷ (73, "i")
    ∷ (74, "j")
    ∷ (75, "k")
    ∷ (76, "l")
    ∷ (77, "m")
    ∷ (78, "n")
    ∷ (79, "o")
    ∷ (80, "p")
    ∷ (81, "q")
    ∷ (82, "r")
    ∷ (83, "s")
    ∷ (84, "t")
    ∷ (85, "u")
    ∷ (86, "v")
    ∷ (87, "w")
    ∷ (88, "x")
    ∷ (89, "y")
    ∷ (90, "z")
    ∷ (1040, "а")
    ∷ (1041, "б")
    ∷ (1042, "в")
    ∷ (1043, "г")
    ∷ (1044, "д")
    ∷ (1045, "е")
    ∷ (1046, "ж")
    ∷ (1047, "з")
    ∷ (1048, "и")
    ∷ (1049, "й")
    ∷ (1050, "к")
    ∷ (1051, "л")
    ∷ (1052, "м")
    ∷ (1053, "н")
    ∷ (1054, "о")
    ∷ (1055, "п")
    ∷ (1056, "р")
    ∷ (1057, "с")
    ∷ (1058, "т")
    ∷ (1059, "у")
    ∷ (1060, "ф")
    ∷ (1061, "х")
    ∷ (1062, "ц")
    ∷ (1063, "ч")
    ∷ (1064, "ш")
    ∷ (1065, "щ")
    ∷ (1066, "ъ")
    ∷ (1067, "ы")
    ∷ (1068, "ь")
    ∷ (1069, "э")
    ∷ (1070, "ю")
    ∷ (1071, "я")
    ∷ (1025, "ё")
    ∷ []
