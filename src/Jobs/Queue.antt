-- ===== src/Jobs/Queue.antt =====
-- queue/publisher.py over Redis, and the session beside it as one state. What Redis answers to a
-- command is an input of the model: a command that is not answered raises.
use sirius_vkr.Prelude.{Bool, true, not, List, [], ◌∷◌, ◌++◌}
use sirius_vkr.Exec.{Exec, redis_error, raise_if, modify, ◌>>◌}
use sirius_vkr.Session.{Session}
use sirius_vkr.Schemas.Job.{JobStreamMessage}

-- The stream `stream_name` with its consumer group; an entry holds the message that it carries.
pub record Redis : Type 0 where
  pub group_answered : Bool
  pub add_answered : Bool
  pub has_group : Bool
  pub entries : List JobStreamMessage

-- The database session and Redis.
pub record World : Type 0 where
  pub session : Session
  pub redis : Redis

-- A call that only uses the database.
abbrev pub in_session : {A : Type 0} → Exec Session A → Exec World A
in_session m w = let (r, s) = m w.session in (r, record w { session = s })

-- `ensure_consumer_group`: XGROUP CREATE; the answer BUSYGROUP is passed over, any other raises.
unfoldable pub ensure_consumer_group : Exec World (Unit {0})
ensure_consumer_group = do
  (λ w. raise_if (not w.redis.group_answered) redis_error w)
  modify (λ w. record w { redis = record w.redis { has_group = true } })

-- `publish_job`: XADD appends one entry. The id that Redis gives it is not used.
unfoldable pub publish_job : JobStreamMessage → Exec World (Unit {0})
unfolding ensure_consumer_group
publish_job message = do
  ensure_consumer_group
  (λ w. raise_if (not w.redis.add_answered) redis_error w)
  modify (λ w. record w { redis = record w.redis { entries = w.redis.entries ++ message ∷ [] } })
