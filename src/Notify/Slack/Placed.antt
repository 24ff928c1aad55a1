-- ===== src/Notify/Slack/Placed.antt =====
-- Where the section for a similar incident stands.
use wachd.Base.{true, List, [], ◌∷◌, ◌++◌, Option, some, ◌≡◌, refl}
use wachd.Notify.Sms.{SimilarIncident}
use wachd.Notify.Slack.{
  Block, Alert, OnCall, Analysis, id_text, has_incident_id, insert_before_last,
  insert_slack_block_before_incident_id, first_blocks, slack_blocks, format_similar_incident_slack,
}

insert_before_last-last :
    (block last : Block) (blocks : List Block)
    → has_incident_id last ≡ true
    → insert_before_last block (blocks ++ last ∷ []) ≡ some (blocks ++ block ∷ last ∷ [])
unfolding insert_before_last
insert_before_last-last block last [] found = rw found refl
insert_before_last-last block last (b ∷ blocks) found =
    rw (insert_before_last-last block last blocks found) refl

insert_slack_block_before_incident_id-last :
    (block last : Block) (blocks : List Block)
    → has_incident_id last ≡ true
    → insert_slack_block_before_incident_id (blocks ++ last ∷ []) block
      ≡ blocks ++ block ∷ last ∷ []
unfolding insert_slack_block_before_incident_id
insert_slack_block_before_incident_id-last block last blocks found =
    rw (insert_slack_block_before_incident_id, insert_before_last-last block last blocks found) refl

-- The section for a similar incident stands right before the block with the incident's id, whatever the texts of
-- the incident, of its message and of the analysis say; all other blocks stand as without it.
pub slack_blocks-Placed :
    (incident : Alert) (user : Option OnCall) (analysis : Option Analysis) (s : SimilarIncident)
    → slack_blocks incident user analysis (some s)
      ≡ first_blocks incident user analysis
        ++ some (format_similar_incident_slack s) ∷ some (id_text incident) ∷ []
unfolding slack_blocks
slack_blocks-Placed incident user analysis s =
    insert_slack_block_before_incident_id-last (some (format_similar_incident_slack s))
      (some (id_text incident)) (first_blocks incident user analysis) refl
