-- ===== src/Session/Laws.antt =====
-- What get_db leaves committed.
use sirius_vkr.Prelude.{◌≡◌, refl}
use sirius_vkr.Exec.{Error, Result, ok, err, Exec}
use sirius_vkr.Session.{Session, close_session, get_db}

module _ {A : Type 0} where
  close_session_err :
      (r : Result A) (s : Session) (e : Error)
      → (close_session (r, s)).0 ≡ err e
      → (r ≡ err e) × ((close_session (r, s)).1.committed ≡ s.committed)
  unfolding close_session
  close_session_err (ok a) s e h = absurd (cc)
  close_session_err (err x) s e h = (h, refl)

  -- A handler that raises under get_db raised by itself, and get_db commits nothing more.
  pub get_db_err :
      (m : Exec Session A) (s : Session) (e : Error)
      → (get_db m s).0 ≡ err e
      → ((m s).0 ≡ err e) × ((get_db m s).1.committed ≡ (m s).1.committed)
  unfolding get_db
  get_db_err m s e = close_session_err (m s).0 (m s).1 e
