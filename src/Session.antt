-- ===== src/Session.antt =====
-- core/database.py: a session over one transaction. `committed` is what other sessions see,
-- `pending` is what this one sees. `clock` is now(), one instant for a request; `fresh` is the
-- supply of UUIDs, of which `drawn` have been taken.
pub mod Laws
use sirius_vkr.Prelude.{ℕ, suc, Bool, if◌then◌else◌}
use sirius_vkr.Exec.{Result, ok, err, Exec, gets, modify, integrity_error}
use sirius_vkr.Database.{Db}

pub record Session : Type 0 where
  pub committed : Db
  pub pending : Db
  pub clock : ℕ
  pub fresh : ℕ → ℕ
  pub drawn : ℕ

-- AsyncSession.commit
abbrev pub commit : Exec Session (Unit {0})
commit = modify (λ s. record s { committed = s.pending })

-- AsyncSession.rollback
abbrev pub rollback : Exec Session (Unit {0})
rollback = modify (λ s. record s { pending = s.committed })

-- A read of the tables as this transaction sees them.
abbrev pub query : {A : Type 0} → (Db → A) → Exec Session A
query f = gets (λ s. f s.pending)

-- A write to the tables.
abbrev pub execute : (Db → Db) → Exec Session (Unit {0})
execute f = modify (λ s. record s { pending = f s.pending })

-- A write that a constraint may forbid: `bad` says that it does, of the tables as they are.
abbrev pub execute_checked : (Db → Bool) → (Db → Db) → Exec Session (Unit {0})
execute_checked bad f s = (
  if bad s.pending then err integrity_error else ok tt,
  record s { pending = if bad s.pending then s.pending else f s.pending },
)

-- uuid.uuid4() and gen_random_uuid()
abbrev pub uuid4 : Exec Session ℕ
uuid4 s = (ok (s.fresh s.drawn), record s { drawn = suc s.drawn })

-- now() and datetime.now(tz=UTC)
abbrev pub now : Exec Session ℕ
now = gets (λ s. s.clock)

close_session : {A : Type 0} → Result A × Session → Result A × Session
close_session (ok a, s) = (ok a, record s { committed = s.pending })
close_session (err e, s) = (err e, record s { pending = s.committed })

-- `get_db` around a handler: it commits when the handler returns and rolls back when it raises.
unfoldable pub get_db : {A : Type 0} → Exec Session A → Exec Session A
unfolding close_session
get_db handler s = close_session (handler s)
