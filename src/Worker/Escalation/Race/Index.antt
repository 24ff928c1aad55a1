-- ===== src/Worker/Escalation/Race/Index.antt =====
-- The unique index holds on, whoever acts on the table.
use wachd.Store.Incidents.{Incidents}
