-- ===== src/Oncall/Types.antt =====
-- The configuration types of internal/oncall/schedule.go and the store's rows that it reads.
use wachd.Base.{ℕ, List, Option, String}
use wachd.Base.Int.{ℤ}
use wachd.GoTime.{Time}

-- A uuid.UUID as its 128-bit number; uuid.Nil is 0.
abbrev pub Uuid : Type 0
Uuid = ℕ

abbrev pub uuid_nil : Uuid
uuid_nil = 0

pub record DayAssignment : Type 0 where
  pub day : String
  pub user_id : Uuid

pub record WeeklyRotation : Type 0 where
  pub rotation : List DayAssignment

-- The texts of times are walked, so they are lists of bytes.
pub record TimeWindow : Type 0 where
  pub start_day : String
  pub start_time : List ℕ
  pub end_day : String
  pub end_time : List ℕ

pub record TimeRestriction : Type 0 where
  pub type : String
  pub windows : List TimeWindow

pub record Layer : Type 0 where
  pub id : String
  pub name : String
  pub layer_order : ℤ
  pub time_restriction : TimeRestriction
  pub members : List Uuid

-- A finite float64: `count` divided by `2 ^ scale`.
pub record Hours : Type 0 where
  pub count : ℤ
  pub scale : ℕ

-- `rotation_start` is what time.Parse(time.RFC3339, ·) reads, `none` where it fails.
pub record LayeredRotation : Type 0 where
  pub rotation_start : Option Time
  pub rotation_interval_hours : Hours
  pub layers : List Layer

-- The bytes of schedules.rotation_config, as json.Unmarshal decodes them: to the struct with the
-- `type` field alone, to a WeeklyRotation and to a LayeredRotation. `none` is its error.
pub record RotationConfig : Type 0 where
  pub peek : Option String
  pub weekly : Option WeeklyRotation
  pub layered : Option LayeredRotation

pub record LayerResult : Type 0 where
  pub layer_name : String
  pub user_id : Uuid

pub record EscalationLayer : Type 0 where
  pub schedule_id : String
  pub user_id : String
  pub notify_after_minutes : ℤ
  pub layer_name : String

pub record EscalationConfig : Type 0 where
  pub layers : List EscalationLayer
  pub repeat_interval_minutes : ℤ
  pub max_repeats : ℤ

pub record TeamMember : Type 0 where
  pub id : Uuid
  pub source : String
  pub team_id : Uuid
  pub name : String
  pub email : String
  pub phone : Option String
  pub role : String

-- A step of the resolved chain; a nil *store.TeamMember is `none`.
pub record EscalationStep : Type 0 where
  pub user : Option TeamMember
  pub notify_after_minutes : ℤ
  pub layer_name : String

pub record Schedule : Type 0 where
  pub id : Uuid
  pub team_id : Uuid
  pub rotation_config : RotationConfig

pub record ScheduleOverride : Type 0 where
  pub id : Uuid
  pub start_at : Time
  pub end_at : Time
  pub user_id : Uuid

-- `config` is the JSON as json.Unmarshal decodes it.
pub record EscalationPolicy : Type 0 where
  pub team_id : Uuid
  pub config : Option EscalationConfig

-- The errors that the functions return, and the two run-time panics that they could raise.
pub data Failure : Type 0 where
  invalid_rotation_config decode_failed no_layers : Failure
  loading_schedule checking_overrides loading_override_member loading_member : Failure
  loading_policy parsing_policy no_resolvable_layers : Failure
  invalid_layer : ℕ → Failure
  divide_by_zero index_out_of_range : Failure
