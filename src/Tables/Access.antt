-- ===== src/Tables/Access.antt =====
-- `requireOpenTableSession` of backend/tables/service.ts.
use restaurant_pos.Base.{ℕ}
use restaurant_pos.Base.Table.{get}
use restaurant_pos.Base.Result.{session_not_found, session_not_open, check, or_error}
use restaurant_pos.Tables.Types.{TableSession, is_open}
use restaurant_pos.Store.{M, pure, lift, ◌>>=◌, ◌>>◌}

unfoldable pub require_open_session : ℕ → M TableSession
require_open_session id = do
  session ← (λ s. lift (or_error (get s.sessions id) session_not_found) s)
  lift (check (is_open session.status) session_not_open)
  pure session
