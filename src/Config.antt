-- ===== src/Config.antt =====
-- core/config.py: the settings with their defaults, and the validator on the secret key.
use sirius_vkr.Prelude.{
  ℕ, ◌*◌, Bool, false, not, ◌&&◌, String, Option, none, some, str_eq, if◌then◌else◌,
}

abbrev pub default_secret_key : String
default_secret_key = "change-me-to-a-random-secret"

pub record Settings : Type 0 where
  pub database_url : String
  pub redis_url : String
  pub stream_name : String
  pub consumer_group : String
  pub secret_key : String
  pub debug : Bool
  pub import_dir : String
  pub jwt_algorithm : String
  pub access_token_expire_minutes : ℕ
  pub bootstrap_admin_email : Option String
  pub bootstrap_admin_password : Option String
  pub seed_demo : Bool
  pub seed_demo_password : String

-- The settings where the environment sets nothing.
abbrev pub defaults : Settings
defaults = record {
  database_url = "postgresql+asyncpg://sirius:changeme@db:5432/sirius27";
  redis_url = "redis://redis:6379/0";
  stream_name = "jobs:stream";
  consumer_group = "worker-group";
  secret_key = default_secret_key;
  debug = false;
  import_dir = "/data/imports";
  jwt_algorithm = "HS256";
  access_token_expire_minutes = 60 * 24;
  bootstrap_admin_email = none;
  bootstrap_admin_password = none;
  seed_demo = false;
  seed_demo_password = "demo12345";
}

-- `_forbid_default_secret_in_prod`: `none` is the ValueError.
unfoldable pub forbid_default_secret_in_prod : Settings → Option Settings
forbid_default_secret_in_prod s =
    if not s.debug && str_eq s.secret_key default_secret_key then none else some s
