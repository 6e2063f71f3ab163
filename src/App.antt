-- ===== src/App.antt =====
-- main.py and core/redis.py: the start of the API with its client of Redis, and the health check.
pub mod Health
pub mod Start
pub mod Steps
pub mod Again
pub mod Recovery
use sirius_vkr.Prelude.{ℕ, Bool, true, false, not, ◌&&◌, String, Option, none, some, if◌then◌else◌}
use sirius_vkr.Exec.{
  Exec, Error, err, connection_error, redis_error, runtime_error, pure, raise, raise_if, gets,
  modify, try_catch, ◌>>=◌, ◌>>◌,
}
use sirius_vkr.Config.{Settings}
use sirius_vkr.Security.{Packages}
use sirius_vkr.Postgres.{Postgres}
use sirius_vkr.Session
use sirius_vkr.Auth.Service.{ensure_bootstrap_admin}
use sirius_vkr.Jobs.Queue.{Redis}
use sirius_vkr.Schemas.Job.{truthy}
use sirius_vkr.Seed.{seed}
use sirius_vkr.Seed.State.{Random, Seeder, in_session}

-- The process and what it talks to: the database with the module's `_rng`, the Redis server, whether
-- `redis_client` is set, and whether either server answers now.
pub record Process : Type 0 where
  pub seeder : Seeder
  pub server : Redis
  pub has_client : Bool
  pub postgres_answers : Bool
  pub redis_answers : Bool

-- `init_redis`: from_url makes a client and sends nothing.
unfoldable pub init_redis : Exec Process (Unit {0})
init_redis = modify (λ p. record p { has_client = true })

unfoldable pub close_redis : Exec Process (Unit {0})
close_redis = modify (λ p. record p { has_client = if p.has_client then false else p.has_client })

-- `get_redis`, the dependency of the routes.
unfoldable pub get_redis : Exec Process (Unit {0})
get_redis = do
  has_client ← gets (λ p. p.has_client)
  if has_client then pure tt else raise runtime_error

-- `redis.xgroup_create`: a group that is there is an error too.
unfoldable pub xgroup_create : Exec Process (Unit {0})
xgroup_create = do
  answered ← gets (λ p. p.server.group_answered)
  raise_if (not answered) redis_error
  has_group ← gets (λ p. p.server.has_group)
  raise_if has_group redis_error
  modify (λ p. record p { server = record p.server { has_group = true } })

-- `with contextlib.suppress(Exception)`
abbrev pub suppress : {S : Type 0} → Exec S (Unit {0}) → Exec S (Unit {0})
suppress m = try_catch m (λ _. pure tt)

-- The session of a start: it is closed at the end and leaves behind what it has committed.
abbrev pub run_session : {A : Type 0} → Exec Seeder A → Exec Process A
run_session m p =
    let (r, w) = m (record p.seeder {
      session = record p.seeder.session { pending = p.seeder.session.committed };
    }) in
    (
      r,
      record p {
        seeder = record w { session = record w.session { pending = w.session.committed } };
      },
    )

-- `async with async_session_factory() as session`: the first statement of the block connects, and
-- raises where PostgreSQL does not answer.
abbrev pub with_session : {A : Type 0} → Exec Seeder A → Exec Process A
with_session m p = elim p.postgres_answers [
  | true ↦ run_session m p
  | false ↦ (err connection_error, p)
]

-- `settings.bootstrap_admin_email and settings.bootstrap_admin_password`, with the two texts.
unfoldable pub admin_of : Option String → Option String → Option (String × String)
unfolding truthy
admin_of (some email) (some password) =
    if truthy (some email) && truthy (some password) then some (email, password) else none
admin_of _ _ = none

unfoldable pub provision_admin : Packages → Option (String × String) → Exec Process (Unit {0})
unfolding ensure_bootstrap_admin
provision_admin packages none = pure tt
provision_admin packages (some (email, password)) =
    with_session (in_session (ensure_bootstrap_admin packages email password))

-- `if settings.seed_demo`: a seed that fails is logged, and the start goes on.
unfoldable pub seed_demo : Postgres → Random → Packages → Settings → Bool → Exec Process (Unit {0})
unfolding seed
seed_demo pg random packages settings true =
    suppress (with_session (seed pg random packages settings))
seed_demo pg random packages settings false = pure tt

-- `lifespan` up to its yield.
unfoldable pub startup : Postgres → Random → Packages → Settings → Exec Process (Unit {0})
unfolding init_redis xgroup_create admin_of provision_admin seed_demo
startup pg random packages settings = do
  init_redis
  suppress xgroup_create
  provision_admin packages
      (admin_of settings.bootstrap_admin_email settings.bootstrap_admin_password)
  seed_demo pg random packages settings settings.seed_demo

-- `lifespan` from its yield on.
unfoldable pub shutdown : Exec Process (Unit {0})
unfolding close_redis
shutdown = close_redis
