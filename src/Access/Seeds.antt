-- ===== src/Access/Seeds.antt =====
-- The group mappings of the environment: bootstrapGroupMappings of cmd/server/main.go, with
-- GetOrCreateTeamByName of internal/store/teams.go and EnsureGroupMappingBootstrap of
-- internal/store/auth.go. The variables GROUP_MAPPING_i_… are a function of i, a variable that is not set
-- is the empty text, and which statements fail is given for each i.
pub mod Ends
pub mod Rows
pub mod Mapped
use wachd.Base.{
  ℕ, zero, suc, ◌++◌, ◌&&◌, ◌||◌, ◌==◌, String, Bool, true, false, List, [], ◌∷◌, Option, none,
  some, Result, err, ok, any, if◌then◌else◌, str_eq, ◌>>=◌,
}
use wachd.Oncall.Types.{Uuid}
use wachd.Access.Groups.{NamedTeam}
use wachd.Access.Sso.{GroupMapping}

pub record Setting : Type 0 where
  pub group_id : String
  pub provider : String
  pub team_name : String
  pub role : String

pub record SeedFaults : Type 0 where
  pub lookup : Bool
  pub secret : Bool
  pub create : Bool
  pub insert : Bool

pub data SeedError : Type 0 where
  secret_failed : SeedError
  team_failed : SeedError
  mapping_failed : SeedError

pub record Seeded : Type 0 where
  pub teams : List NamedTeam
  pub mappings : List GroupMapping

abbrev pub is_named : String → NamedTeam → Bool
is_named name t = str_eq t.name name

abbrev find_team : String → List NamedTeam → Option Uuid
find_team name [] = none
find_team name (t ∷ teams) = if is_named name t then some t.id else find_team name teams

abbrev create_team :
    SeedFaults → Uuid → String → List NamedTeam → Result SeedError (Uuid × List NamedTeam)
create_team faults new_id name teams =
    if faults.secret
    then err secret_failed
    else if faults.create
    then err team_failed
    else ok (new_id, teams ++ record { id = new_id; name = name } ∷ [])

-- A lookup that fails is taken for a missing team.
unfoldable pub get_or_create_team_by_name :
    SeedFaults → Uuid → String → List NamedTeam → Result SeedError (Uuid × List NamedTeam)
get_or_create_team_by_name faults new_id name teams =
    if faults.lookup then create_team faults new_id name teams else elim (find_team name teams) [
      | some id ↦ ok (id, teams)
      | none ↦ create_team faults new_id name teams
    ]

abbrev pub is_mapping : String → String → Uuid → GroupMapping → Bool
is_mapping provider group_id team_id m =
    str_eq m.provider provider && str_eq m.group_id group_id && m.team_id == team_id

-- ON CONFLICT (provider, group_id, team_id) DO NOTHING
unfoldable pub ensure_group_mapping_bootstrap :
    String → String → Uuid → String → List GroupMapping → List GroupMapping
ensure_group_mapping_bootstrap provider group_id team_id role rows =
    if any (is_mapping provider group_id team_id) rows
    then rows
    else rows
      ++ record {
        provider = provider;
        sso_provider_id = none;
        group_id = group_id;
        team_id = team_id;
        role = role;
      }
        ∷ []

abbrev pub or_text : String → String → String
or_text default text = if str_eq text "" then default else text

abbrev pub with_mapping :
    SeedFaults → Setting → List GroupMapping → Uuid × List NamedTeam → Result SeedError Seeded
with_mapping faults v mappings found =
    if faults.insert
    then err mapping_failed
    else ok (record {
      teams = found.1;
      mappings =
          ensure_group_mapping_bootstrap (or_text "entra" v.provider) v.group_id found.0
            (or_text "viewer" v.role) mappings;
    })

-- The body of the loop. A mapping without a team name is left out.
unfoldable pub seed : SeedFaults → Uuid → Setting → Seeded → Result SeedError Seeded
seed faults new_id v s =
    if str_eq v.team_name ""
    then ok s
    else get_or_create_team_by_name faults new_id v.team_name s.teams
      >>= with_mapping faults v s.mappings

module _ (faults : ℕ → SeedFaults) (fresh : ℕ → Uuid) (env : ℕ → Setting) where
  -- The loop from i on; `none` is a loop that the fuel did not see to its end.
  unfoldable pub seed_from : ℕ → ℕ → Seeded → Option (Result SeedError Seeded)
  seed_from zero i s = none
  seed_from (suc fuel) i s =
      if str_eq (env i).group_id ""
      then some (ok s)
      else elim (seed (faults i) (fresh i) (env i) s) [
        | err e ↦ some (err e)
        | ok next ↦ seed_from fuel (suc i) next
      ]

  unfoldable pub bootstrap_group_mappings : ℕ → Seeded → Option (Result SeedError Seeded)
  unfolding seed_from
  bootstrap_group_mappings fuel s = seed_from fuel 0 s
