-- ===== src/Access/Sso/Synced.antt =====
-- What SyncTeamAccess of internal/store/auth.go leaves in sso_team_access.
use wachd.Access.Sso.{Rows}
