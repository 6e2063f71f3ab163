-- ===== src/App/Health.antt =====
-- The health check of main.py.
use sirius_vkr.Prelude.{◌≡◌, Bool, true, false, not, ◌&&◌, Option, none, some, if◌then◌else◌, arith}
use sirius_vkr.App.{Process}

pub data Status : Type 0 where
  healthy degraded : Status

-- The entry of one service: "ok", "not initialized" or "error: ...".
pub data ServiceStatus : Type 0 where
  available not_initialized failed : ServiceStatus

pub record Report : Type 0 where
  pub status : Status
  pub postgres : Option ServiceStatus
  pub redis : Option ServiceStatus

-- SELECT 1
unfoldable pub check_postgres : Process → Report → Report
check_postgres p report =
    if p.postgres_answers
    then record report { postgres = some available }
    else record report { status = degraded; postgres = some failed }

-- PING, by the client that the module holds.
unfoldable pub check_redis : Process → Report → Report
check_redis p report =
    if not p.has_client
    then record report { status = degraded; redis = some not_initialized }
    else if p.redis_answers
    then record report { redis = some available }
    else record report { status = degraded; redis = some failed }

unfoldable pub health_check : Process → Report
unfolding check_postgres check_redis
health_check p =
    check_redis p (check_postgres p (record { status = healthy; postgres = none; redis = none }))

abbrev is_healthy : Status → Bool
is_healthy healthy = true
is_healthy degraded = false

abbrev is_available : Option ServiceStatus → Bool
is_available (some available) = true
is_available _ = false

-- The status is ok exactly when both services are reported as ok: PostgreSQL when it answers, Redis
-- when the module holds a client and the server answers.
health_check_lem :
    (p : Process)
    → let report = health_check p in
      (is_healthy report.status ≡ (is_available report.postgres && is_available report.redis))
      × (is_available report.postgres ≡ p.postgres_answers)
      × (is_available report.redis ≡ (p.has_client && p.redis_answers))
unfolding health_check check_postgres check_redis
health_check_lem p = ground arith
