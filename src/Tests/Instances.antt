-- ===== src/Tests/Instances.antt =====
-- Concrete functions for the parameters: PostgreSQL, the packages and Python's round.
use Prim.Native.Nat.{Ordering, compare}
use Prim.Native.Char.{char, code}
use Prim.Native.String.{[], ◌∷◌}
use sirius_vkr.Prelude.{
  ℕ, zero, suc, ◌+◌, ◌*◌, ◌/◌, ◌≤◌, ◌<◌, ◌≡◌, refl, ap, ◌∙◌, true, String, Option, none, some, List,
  arith, leb, ◌==◌, str_eq, str_eq_refl, if◌then◌else◌,
}
use sirius_vkr.Models.People.{Bytes}
use sirius_vkr.Postgres.{Postgres}
use sirius_vkr.Security.{Claims, Packages}
use sirius_vkr.Config.{Settings, defaults}
use sirius_vkr.Learning.Analytics.{Rounding}

abbrev IsLess : Ordering → Type 0
IsLess Ordering.lt = Unit
IsLess Ordering.eq = ⊥
IsLess Ordering.gt = ⊥

abbrev AreLess : Ordering → Ordering → Type 0
AreLess Ordering.lt o = IsLess o
AreLess Ordering.eq _ = ⊥
AreLess Ordering.gt _ = ⊥

abbrev IsOneOf : Ordering → Ordering → Ordering → Type 0
IsOneOf Ordering.lt _ _ = Unit
IsOneOf Ordering.eq o p = AreLess o p
IsOneOf Ordering.gt o p = AreLess o p

abbrev are_less : (o p : Ordering) → Option (AreLess o p)
are_less Ordering.lt Ordering.lt = some tt
are_less _ _ = none

abbrev scalar? : (o p q : Ordering) → Option (IsOneOf o p q)
scalar? Ordering.lt _ _ = some tt
scalar? Ordering.eq o p = are_less o p
scalar? Ordering.gt o p = are_less o p

are_less_all : (o p : Ordering) (h : AreLess o p) → are_less o p ≡ some h
are_less_all Ordering.lt Ordering.lt h = refl
are_less_all Ordering.lt Ordering.eq h = absurd h
are_less_all Ordering.lt Ordering.gt h = absurd h
are_less_all Ordering.eq p h = absurd h
are_less_all Ordering.gt p h = absurd h

scalar-all : (o p q : Ordering) (h : IsOneOf o p q) → scalar? o p q ≡ some h
scalar-all Ordering.lt p q h = refl
scalar-all Ordering.eq p q h = are_less_all p q h
scalar-all Ordering.gt p q h = are_less_all p q h

-- The character of a number put before a text; a number of no character is passed over.
abbrev put :
    (n : ℕ)
    → Option (IsOneOf (compare n 55296) (compare 57343 n) (compare n 1114112))
    → String
    → String
put n none s = s
put n (some h) s = char n h ∷ s

abbrev text_of : Bytes → String
text_of List.[] = []
text_of (List.◌∷◌ n ns) =
    put n (scalar? (compare n 55296) (compare 57343 n) (compare n 1114112)) (text_of ns)

abbrev bytes_of : String → Bytes
bytes_of [] = List.[]
bytes_of (c ∷ s) = List.◌∷◌ (code c) (bytes_of s)

pub text_of-bytes_of : (s : String) → text_of (bytes_of s) ≡ s
text_of-bytes_of [] = refl
text_of-bytes_of (char n h ∷ s) =
    ap (λ o. put n o (text_of (bytes_of s)))
      (scalar-all (compare n 55296) (compare 57343 n) (compare n 1114112) h)
    ∙ ap (λ t. char n h ∷ t) (text_of-bytes_of s)

-- Texts are stored as their code points, and every text comes before every other.
abbrev pub pg : Postgres
pg = record {
  key = "key";
  sym_encrypt = λ nonce t k. bytes_of t;
  sym_decrypt = λ b k. text_of b;
  text_le = λ a b. true;
  decrypt_encrypt = λ n t k. text_of-bytes_of t;
}

-- A number as a run of marks before a text, and the way back.
abbrev marks : ℕ → String → String
marks zero s = char 59 tt ∷ s
marks (suc n) s = char 105 tt ∷ marks n s

abbrev count_marks : String → ℕ × String
count_marks [] = (0, [])
count_marks (c ∷ s) =
    let rest = count_marks s in if code c == 105 then (suc rest.0, rest.1) else (0, s)

pub count_marks-marks : (n : ℕ) (s : String) → count_marks (marks n s) ≡ (n, s)
count_marks-marks zero s = refl
count_marks-marks (suc n) s = ap (λ (t : ℕ × String). (suc t.0, t.1)) (count_marks-marks n s)

-- A payload as a text, and the way back.
abbrev sub_text : Option String → String
sub_text none = []
sub_text (some s) = char 115 tt ∷ s

abbrev text_sub : String → Option String
text_sub [] = none
text_sub (c ∷ s) = some s

abbrev claims_text : Claims → String
claims_text c = marks c.iat (marks c.exp (sub_text c.sub))

abbrev text_claims : String → Claims
text_claims s =
    let (iat, rest) = count_marks s in
    let (exp, sub) = count_marks rest in record { sub = text_sub sub; iat = iat; exp = exp }

text_sub-sub_text : (o : Option String) → text_sub (sub_text o) ≡ o
text_sub-sub_text none = refl
text_sub-sub_text (some s) = refl

pub text_claims-claims_text : (c : Claims) → text_claims (claims_text c) ≡ c
text_claims-claims_text c =
    rw
      (
        count_marks-marks c.iat (marks c.exp (sub_text c.sub)),
        count_marks-marks c.exp (sub_text c.sub),
        text_sub-sub_text c.sub,
      )
      refl

abbrev decode_at : ℕ → Claims → Option Claims
decode_at at c = if leb c.exp at then none else some c

decode_at-before : (at : ℕ) (c : Claims) → at < c.exp → decode_at at c ≡ some c
decode_at-before at c h = ground arith

decode_at-after : (at : ℕ) (c : Claims) → c.exp ≤ at → decode_at at c ≡ none
decode_at-after at c h = ground arith

pub decode_encode :
    (at : ℕ) (c : Claims) → at < c.exp → decode_at at (text_claims (claims_text c)) ≡ some c
decode_encode at c h = ap (decode_at at) (text_claims-claims_text c) ∙ decode_at-before at c h

pub decode_expired :
    (at : ℕ) (c : Claims) → c.exp ≤ at → decode_at at (text_claims (claims_text c)) ≡ none
decode_expired at c h = ap (decode_at at) (text_claims-claims_text c) ∙ decode_at-after at c h

-- A hash is the password, a token its payload as a text, a UUID a run of marks.
abbrev pub packages : Packages
packages = record {
  bcrypt_hash = λ salt p. p;
  bcrypt_verify = str_eq;
  jwt_encode = λ c key algorithm. claims_text c;
  jwt_decode = λ at t key algorithm. decode_at at (text_claims t);
  uuid_str = λ k. marks k [];
  uuid_parse = λ t. some (count_marks t).0;
  verify_hash = λ salt p. str_eq_refl p;
  decode_encode = λ at c key algorithm issued h. decode_encode at c h;
  decode_expired = λ at c key algorithm h. decode_expired at c h;
  parse_str = λ k. ap (λ (t : ℕ × String). some t.0) (count_marks-marks k []);
}

abbrev pub settings : Settings
settings = record defaults { secret_key = "secret"; access_token_expire_minutes = 1 }

abbrev rounded : ℕ → ℕ → ℕ
rounded a b = (2000 * a + b) / (2 * b)

pub rounded_bounds :
    (a b : ℕ)
    → 0 < b
    → (2000 * a ≤ 2 * (rounded a b * b) + b) × (2 * (rounded a b * b) ≤ 2000 * a + b)
rounded_bounds a b h = grind arith

-- To the nearest thousandth, halves up.
abbrev pub rounding : Rounding
rounding = record {
  round3 = rounded;
  above = λ a b h. (rounded_bounds a b h).0;
  below = λ a b h. (rounded_bounds a b h).1;
}
