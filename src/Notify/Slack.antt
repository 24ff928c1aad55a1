-- ===== src/Notify/Slack.antt =====
-- The Slack message: buildIncidentAlertMessage of internal/notify/slack.go, and the section for a similar
-- incident of internal/notify/similar_incident.go. Texts are lists of runes; the texts of an id and of a time are
-- given.
pub mod Placed
use wachd.Base.{
  ℕ, Bool, true, false, not, ◌&&◌, ◌||◌, List, [], ◌∷◌, ◌++◌, is_nil, Option, none, some, ◌==◌,
  if◌then◌else◌,
}
use wachd.Password.{codes}
use wachd.Notify.Text.{trim_space}
use wachd.Notify.Sms.{SimilarIncident, title_or}

-- The text of a block's text object, if it has one.
abbrev pub Block : Type 0
Block = Option (List ℕ)

pub record Alert : Type 0 where
  pub title : List ℕ
  pub severity : List ℕ
  pub source : List ℕ
  pub message : Option (List ℕ)
  pub id : List ℕ
  pub fired_at : List ℕ

pub record OnCall : Type 0 where
  pub name : List ℕ
  pub email : List ℕ

pub record Analysis : Type 0 where
  pub root_cause : List ℕ
  pub suggested_action : List ℕ
  pub confidence : List ℕ

abbrev pub incident_id_label : List ℕ
incident_id_label = codes "*Incident ID:*"

abbrev pub on_call_text : Option OnCall → List ℕ
on_call_text none = codes "Unassigned"
on_call_text (some user) = user.name ++ codes " <" ++ user.email ++ codes ">"

abbrev pub message_blocks : Option (List ℕ) → List Block
message_blocks none = []
message_blocks (some text) = if is_nil text then [] else some (codes "*Message:* " ++ text) ∷ []

abbrev pub analysis_blocks : Option Analysis → List Block
analysis_blocks none = []
analysis_blocks (some a) =
    some (
      codes "*Root Cause Analysis:*\n\n*Probable Cause:* "
      ++ a.root_cause
      ++ codes "\n\n*Suggested Action:* "
      ++ a.suggested_action
      ++ codes "\n\n*Confidence:* "
      ++ a.confidence)
    ∷ []

abbrev pub id_text : Alert → List ℕ
id_text incident =
    incident_id_label ++ (codes " `" ++ incident.id ++ codes "`\n*Fired at:* " ++ incident.fired_at)

-- The blocks in front of the last.
unfoldable pub first_blocks : Alert → Option OnCall → Option Analysis → List Block
first_blocks incident user analysis =
    (some (codes "*Alert:* " ++ incident.title)
      ∷ some (
          codes "*Severity:* "
          ++ incident.severity
          ++ codes "\n*Source:* "
          ++ incident.source
          ++ codes "\n*On-Call:* "
          ++ on_call_text user)
      ∷ [])
    ++ message_blocks incident.message
    ++ analysis_blocks analysis

unfoldable pub incident_alert_blocks : Alert → Option OnCall → Option Analysis → List Block
unfolding first_blocks
incident_alert_blocks incident user analysis =
    first_blocks incident user analysis ++ some (id_text incident) ∷ []

abbrev pub is_prefix : List ℕ → List ℕ → Bool
is_prefix [] text = true
is_prefix (p ∷ ps) [] = false
is_prefix (p ∷ ps) (r ∷ rs) = p == r && is_prefix ps rs

-- strings.Contains
abbrev pub contains : List ℕ → List ℕ → Bool
contains part [] = is_nil part
contains part (r ∷ rs) = is_prefix part (r ∷ rs) || contains part rs

abbrev pub has_incident_id : Block → Bool
has_incident_id none = false
has_incident_id (some text) = contains incident_id_label text

-- The loop, which goes from the last block to the first: the blocks with the new one, if it finds a place.
unfoldable pub insert_before_last : Block → List Block → Option (List Block)
insert_before_last block [] = none
insert_before_last block (b ∷ blocks) = elim (insert_before_last block blocks) [
  | some updated ↦ some (b ∷ updated)
  | none ↦ if has_incident_id b then some (block ∷ b ∷ blocks) else none
]

unfoldable pub insert_slack_block_before_incident_id : List Block → Block → List Block
unfolding insert_before_last
insert_slack_block_before_incident_id blocks block = elim (insert_before_last block blocks) [
  | some updated ↦ updated
  | none ↦ blocks ++ block ∷ []
]

abbrev pub unless_blank : List ℕ → List ℕ → List ℕ
unless_blank trimmed text = if is_nil trimmed then [] else text

abbrev pub fired_text : Option (List ℕ) → List ℕ
fired_text none = []
fired_text (some day) = codes " - " ++ day

unfoldable pub format_similar_incident_slack : SimilarIncident → List ℕ
unfolding trim_space
format_similar_incident_slack s =
    codes "*Similar past incident ("
    ++ s.percent
    ++ codes "):* "
    ++ title_or (trim_space s.title) (codes "Untitled incident")
    ++ fired_text s.fired_on
    ++ unless_blank (trim_space s.resolution)
        (codes "\n*Previous resolution:* " ++ trim_space s.resolution)
    ++ unless_blank (trim_space s.url) (codes "  ->  <" ++ trim_space s.url ++ codes "|view>")

-- The blocks that are sent.
unfoldable pub slack_blocks :
    Alert → Option OnCall → Option Analysis → Option SimilarIncident → List Block
unfolding incident_alert_blocks insert_slack_block_before_incident_id format_similar_incident_slack
slack_blocks incident user analysis none = incident_alert_blocks incident user analysis
slack_blocks incident user analysis (some s) =
    insert_slack_block_before_incident_id (incident_alert_blocks incident user analysis)
      (some (format_similar_incident_slack s))
