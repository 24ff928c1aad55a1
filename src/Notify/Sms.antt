-- ===== src/Notify/Sms.antt =====
-- The text message: buildMessage of internal/notify/sms.go and buildMessageWithSimilar of
-- internal/notify/similar_incident.go. Texts are lists of runes, as Go reads them: a byte of a code point that a
-- slice cut in two is the replacement character. `upper` is strings.ToUpper.
pub mod Bounded
use wachd.Base.{
  ℕ, zero, suc, ◌+◌, ◌-◌, ltb, Bool, true, false, List, [], ◌∷◌, ◌++◌, length, is_nil, Option, none,
  some, leb, if◌then◌else◌,
}
use wachd.Password.{codes, rune_len, byte_len, repeat}
use wachd.Notify.Text.{trim_space, truncate_runes}

-- The percentage is the text of formatSimilarityPercent for the score, which is a float.
pub record SimilarIncident : Type 0 where
  pub title : List ℕ
  pub percent : List ℕ
  pub resolution : List ℕ
  pub url : List ℕ
  pub fired_on : Option (List ℕ)

-- text[:n], where the text has more than n bytes.
unfoldable pub slice_bytes : ℕ → List ℕ → List ℕ
slice_bytes n [] = []
slice_bytes n (r ∷ rs) =
    let rest = slice_bytes (n - rune_len r) rs in
    if leb (rune_len r) n then r ∷ rest else repeat n 0xFFFD

-- The root cause as it stands in the message; `none` is a nil analysis.
unfoldable pub cause_text : Option (List ℕ) → List ℕ
unfolding slice_bytes byte_len
cause_text none = []
cause_text (some cause) =
    if is_nil cause
    then []
    else if ltb 80 (byte_len cause)
    then codes " — " ++ slice_bytes 77 cause ++ codes "..."
    else codes " — " ++ cause

unfoldable pub build_message : (List ℕ → List ℕ) → List ℕ → List ℕ → Option (List ℕ) → List ℕ
unfolding cause_text
build_message upper severity title cause =
    codes "[WACHD] "
    ++ upper severity
    ++ codes ": "
    ++ title
    ++ cause_text cause
    ++ codes ". Check Slack for details."

abbrev pub max_sms_incident_alert_chars : ℕ
max_sms_incident_alert_chars = 160

abbrev pub title_or : List ℕ → List ℕ → List ℕ
title_or title other = if is_nil title then other else title

unfoldable pub similar_suffix : SimilarIncident → List ℕ
unfolding trim_space truncate_runes
similar_suffix s =
    codes " Similar: "
    ++ truncate_runes (title_or (trim_space s.title) (codes "past incident")) 34
    ++ codes " ("
    ++ s.percent
    ++ codes ")."

-- `base` and `suffix` together.
unfoldable pub fit_suffix : List ℕ → List ℕ → List ℕ
unfolding trim_space truncate_runes
fit_suffix base suffix =
    if leb (length base + length suffix) max_sms_incident_alert_chars
    then base ++ suffix
    else if leb max_sms_incident_alert_chars (length suffix)
    then truncate_runes (trim_space suffix) max_sms_incident_alert_chars
    else truncate_runes base (max_sms_incident_alert_chars - length suffix) ++ suffix

unfoldable pub build_message_with_similar : List ℕ → Option SimilarIncident → List ℕ
unfolding fit_suffix similar_suffix truncate_runes
build_message_with_similar base none = truncate_runes base max_sms_incident_alert_chars
build_message_with_similar base (some s) = fit_suffix base (similar_suffix s)

-- What is sent to a phone: nothing without a number. Without a similar incident the plain message is sent.
unfoldable pub sms_body :
    (List ℕ → List ℕ)
    → Option (List ℕ)
    → List ℕ
    → List ℕ
    → Option (List ℕ)
    → Option SimilarIncident
    → Option (List ℕ)
unfolding build_message build_message_with_similar
sms_body upper none severity title cause similar = none
sms_body upper (some phone) severity title cause similar =
    if is_nil phone then none else elim similar [
      | none ↦ some (build_message upper severity title cause)
      | some s ↦
          some (build_message_with_similar (build_message upper severity title cause) (some s))
    ]
