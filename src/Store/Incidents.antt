-- ===== src/Store/Incidents.antt =====
-- The incidents table: internal/store/incidents.go, and the statements on it in the incident handlers
-- of cmd/server/main.go. Of a row it keeps the columns that a statement reads or sets; the columns with
-- the alert's text and JSON are left out. Times are instants in nanoseconds.
pub mod Rows
pub mod Unique
use wachd.Base.{
  ℕ, suc, ◌+◌, String, Bool, true, false, not, ◌&&◌, ◌||◌, List, [], ◌∷◌, ◌++◌, Option, none, some,
  any, take, ltb, ◌==◌, if◌then◌else◌, str_eq, Result, ok, err,
}
use wachd.Oncall.Types.{Uuid}

pub record Incident : Type 0 where
  pub id : Uuid
  pub team_id : Uuid
  pub status : String
  pub fingerprint : Option String
  pub fired_at : ℕ
  pub acknowledged_at : Option ℕ
  pub resolved_at : Option ℕ
  pub snoozed_until : Option ℕ
  pub escalation_step : ℕ
  pub updated_at : ℕ
  pub assigned_to : Option Uuid

abbrev pub Incidents : Type 0
Incidents = List Incident

-- UPDATE incidents SET change WHERE test
unfoldable pub update_where : (Incident → Bool) → (Incident → Incident) → Incidents → Incidents
update_where test change [] = []
update_where test change (r ∷ rows) =
    (if test r then change r else r) ∷ update_where test change rows

-- RowsAffected()
unfoldable pub count_where : (Incident → Bool) → Incidents → ℕ
count_where test [] = 0
count_where test (r ∷ rows) = let rest = count_where test rows in if test r then suc rest else rest

unfoldable pub select : (Incident → Bool) → Incidents → Incidents
select test [] = []
select test (r ∷ rows) = let rest = select test rows in if test r then r ∷ rest else rest

abbrev pub has_key : Uuid → Uuid → Incident → Bool
has_key team_id incident_id r = r.id == incident_id && r.team_id == team_id

unfoldable pub get_incident : Uuid → Uuid → Incidents → Option Incident
get_incident team_id incident_id [] = none
get_incident team_id incident_id (r ∷ rows) =
    if has_key team_id incident_id r then some r else get_incident team_id incident_id rows

-- status IN ('open', 'acknowledged', 'snoozed')
abbrev pub is_active : Incident → Bool
is_active r = str_eq r.status "open" || str_eq r.status "acknowledged" || str_eq r.status "snoozed"

abbrev pub same_text : Option String → String → Bool
same_text none text = false
same_text (some f) text = str_eq f text

abbrev pub matches_fingerprint : Uuid → String → Incident → Bool
matches_fingerprint team_id fingerprint r =
    r.team_id == team_id && same_text r.fingerprint fingerprint && is_active r

-- IncrementEscalationStep: advances the step of an open incident that still is at `from_step`, and says
-- whether it did.
unfoldable pub increment_escalation_step : ℕ → Uuid → Uuid → ℕ → Incidents → Incidents × Bool
increment_escalation_step now team_id incident_id from_step rows =
    let test = λ (r : Incident).
      has_key team_id incident_id r && r.escalation_step == from_step && str_eq r.status "open" in
    (
      update_where test
          (λ r. record r { escalation_step = r.escalation_step + 1; updated_at = now }) rows,
      count_where test rows == 1,
    )

-- The unique index on (team_id, fingerprint) over the active rows that have a fingerprint.
abbrev pub is_twin : Incident → Incident → Bool
is_twin new r = elim new.fingerprint [
  | none ↦ false
  | some f ↦ is_active new && matches_fingerprint new.team_id f r
]

unfoldable pub has_unique_index : Incidents → Bool
has_unique_index [] = true
has_unique_index (r ∷ rows) = not (any (is_twin r) rows) && has_unique_index rows

pub data StatementError : Type 0 where
  unique_violation : StatementError

-- An UPDATE changes the rows that pass the test one after the other, and looks for each new version in the
-- index, beside the rows before, as they are by now, and those behind.
unfoldable pub meets_twin : (Incident → Bool) → (Incident → Incident) → Incidents → Incidents → Bool
meets_twin test change before [] = false
meets_twin test change before (r ∷ rows) =
    let rest = meets_twin test change (before ++ (if test r then change r else r) ∷ []) rows in
    test r && any (is_twin (change r)) (before ++ rows) || rest

-- An UPDATE that meets a twin fails and changes nothing.
abbrev pub update_indexed :
    (Incident → Bool) → (Incident → Incident) → Incidents → Result StatementError Incidents
update_indexed test change rows =
    if meets_twin test change [] rows
    then err unique_violation
    else ok (update_where test change rows)

abbrev pub acknowledged : ℕ → Uuid → Incident → Incident
acknowledged now user_id r = record r {
  status = "acknowledged";
  acknowledged_at = some now;
  assigned_to = some user_id;
  updated_at = now;
}

-- AcknowledgeIncident
unfoldable pub acknowledge_incident :
    ℕ → Uuid → Uuid → Uuid → Incidents → Result StatementError Incidents
acknowledge_incident now team_id incident_id user_id rows =
    update_indexed (has_key team_id incident_id) (acknowledged now user_id) rows

abbrev pub resolved : ℕ → Incident → Incident
resolved now r = record r { status = "resolved"; resolved_at = some now; updated_at = now }

-- The UPDATE of handleResolveIncident.
unfoldable pub resolve_incident : ℕ → Uuid → Uuid → Incidents → Incidents
resolve_incident now team_id incident_id rows =
    update_where (has_key team_id incident_id) (resolved now) rows

abbrev pub reopened : ℕ → Incident → Incident
reopened now r = record r {
  status = "open";
  acknowledged_at = none;
  resolved_at = none;
  assigned_to = none;
  updated_at = now;
}

-- The UPDATE of handleReopenIncident.
unfoldable pub reopen_incident : ℕ → Uuid → Uuid → Incidents → Result StatementError Incidents
reopen_incident now team_id incident_id rows =
    update_indexed (has_key team_id incident_id) (reopened now) rows

abbrev pub snoozed : ℕ → ℕ → Incident → Incident
snoozed now until r = record r { status = "snoozed"; snoozed_until = some until; updated_at = now }

-- The UPDATE of handleSnoozeIncident.
unfoldable pub snooze_incident : ℕ → ℕ → Uuid → Uuid → Incidents → Result StatementError Incidents
snooze_incident now until team_id incident_id rows =
    update_indexed (has_key team_id incident_id) (snoozed now until) rows

-- ResolveIncidentByFingerprint
unfoldable pub resolve_by_fingerprint : ℕ → Uuid → String → Incidents → Incidents
resolve_by_fingerprint now team_id fingerprint rows =
    update_where (matches_fingerprint team_id fingerprint) (resolved now) rows

-- ORDER BY fired_at DESC LIMIT 1
unfoldable pub latest : Incidents → Option Incident
latest [] = none
latest (r ∷ rows) = elim (latest rows) [
  | none ↦ some r
  | some s ↦ if ltb r.fired_at s.fired_at then some s else some r
]

-- FindOpenIncidentByFingerprint
unfoldable pub find_open_by_fingerprint : Uuid → String → Incidents → Option Incident
unfolding latest select
find_open_by_fingerprint team_id fingerprint rows =
    latest (select (matches_fingerprint team_id fingerprint) rows)

pub data CreateError : Type 0 where
  duplicate_incident : CreateError

-- The row that CreateIncident inserts: the columns that it does not name have their defaults.
abbrev pub new_row : ℕ → Uuid → Incident → Incident
new_row now new_id given = record {
  id = new_id;
  team_id = given.team_id;
  status = given.status;
  fingerprint = given.fingerprint;
  fired_at = if given.fired_at == 0 then now else given.fired_at;
  acknowledged_at = none;
  resolved_at = none;
  snoozed_until = none;
  escalation_step = 0;
  updated_at = now;
  assigned_to = none;
}

-- CreateIncident. A unique violation, of the index or of the primary key, is ErrDuplicateIncident.
unfoldable pub create_incident : ℕ → Uuid → Incident → Incidents → Result CreateError Incidents
create_incident now new_id given rows =
    if any (λ r. r.id == new_id) rows || any (is_twin (new_row now new_id given)) rows
    then err duplicate_incident
    else ok (rows ++ new_row now new_id given ∷ [])

-- ORDER BY fired_at ASC
insert_by_age : Incident → Incidents → Incidents
insert_by_age x [] = x ∷ []
insert_by_age x (y ∷ ys) =
    let rest = y ∷ insert_by_age x ys in if ltb y.fired_at x.fired_at then rest else x ∷ y ∷ ys

unfoldable pub oldest_first : Incidents → Incidents
unfolding insert_by_age
oldest_first [] = []
oldest_first (x ∷ xs) = insert_by_age x (oldest_first xs)

-- GetOpenIncidentsForEscalation
unfoldable pub get_open_for_escalation : ℕ → Incidents → Incidents
unfolding oldest_first select
get_open_for_escalation cutoff rows =
    take 200 (oldest_first (select (λ r. str_eq r.status "open" && ltb r.fired_at cutoff) rows))
