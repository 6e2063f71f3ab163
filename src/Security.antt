-- ===== src/Security.antt =====
-- core/security.py over the packages pwdlib and PyJWT, which are parameters.
use sirius_vkr.Prelude.{
  ℕ, ◌+◌, ◌*◌, ◌≤◌, ◌<◌, Bool, true, String, Option, none, some, coalesce, ◌≡◌,
}
use sirius_vkr.Config.{Settings}

-- The payload of a token; a token of another issuer may lack `sub`.
pub record Claims : Type 0 where
  pub sub : Option String
  pub iat : ℕ
  pub exp : ℕ

-- pwdlib: a salted hash accepts its own password. PyJWT: a token decodes, under the key and the
-- algorithm that signed it, to its payload from `iat` on and before `exp`, and raises from `exp`
-- on (`none`). uuid: the text of a UUID parses back, and any other text raises (`none`).
pub record Packages : Type 0 where
  pub bcrypt_hash : ℕ → String → String
  pub bcrypt_verify : String → String → Bool
  pub jwt_encode : Claims → String → String → String
  pub jwt_decode : ℕ → String → String → String → Option Claims
  pub uuid_str : ℕ → String
  pub uuid_parse : String → Option ℕ
  pub verify_hash : (salt : ℕ) (p : String) → bcrypt_verify p (bcrypt_hash salt p) ≡ true
  pub decode_encode :
      (at : ℕ) (c : Claims) (key algorithm : String)
      → c.iat ≤ at
      → at < c.exp
      → jwt_decode at (jwt_encode c key algorithm) key algorithm ≡ some c
  pub decode_expired :
      (at : ℕ) (c : Claims) (key algorithm : String)
      → c.exp ≤ at
      → jwt_decode at (jwt_encode c key algorithm) key algorithm ≡ none
  pub parse_str : (k : ℕ) → uuid_parse (uuid_str k) ≡ some k

module _ (packages : Packages) where
  unfoldable pub hash_password : ℕ → String → String
  hash_password = packages.bcrypt_hash

  unfoldable pub verify_password : String → String → Bool
  verify_password = packages.bcrypt_verify

  -- timedelta(minutes=...), in seconds
  unfoldable pub token_claims : Settings → ℕ → ℕ → Option ℕ → Claims
  token_claims settings at subject expires_minutes = record {
    sub = some (packages.uuid_str subject);
    iat = at;
    exp = at + coalesce expires_minutes settings.access_token_expire_minutes * 60;
  }

  unfoldable pub create_access_token : Settings → ℕ → ℕ → Option ℕ → String
  unfolding token_claims
  create_access_token settings at subject expires_minutes =
      packages.jwt_encode (token_claims settings at subject expires_minutes) settings.secret_key
        settings.jwt_algorithm

  unfoldable pub decode_access_token : Settings → ℕ → String → Option Claims
  decode_access_token settings at token =
      packages.jwt_decode at token settings.secret_key settings.jwt_algorithm
