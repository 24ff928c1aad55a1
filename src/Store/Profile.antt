-- ===== src/Store/Profile.antt =====
-- The tables of a user's own settings: the notification rules of internal/store/notification_rules.go and the
-- push tokens of internal/store/push_tokens.go. The ids and texts of rules are kept, the times of creation
-- and change are left out. A statement that would break a unique key fails and changes nothing.
use wachd.Base.{
  ℕ, String, Bool, true, not, ◌&&◌, List, [], ◌∷◌, ◌++◌, any, ◌==◌, if◌then◌else◌, str_eq, Result,
  ok, err,
}
use wachd.Oncall.Types.{Uuid}
use wachd.Worker.Notifications.{NotificationRule}

pub record RuleRow : Type 0 where
  pub id : Uuid
  pub rule : NotificationRule

pub record TokenRow : Type 0 where
  pub user_id : Uuid
  pub user_source : String
  pub token : String
  pub platform : String

-- The user of a session: its id and its source.
abbrev pub Owner : Type 0
Owner = Uuid × String

abbrev pub is_rule_owner : Owner → RuleRow → Bool
is_rule_owner (id, source) r = r.rule.user_id == id && str_eq r.rule.user_source source

abbrev pub is_token_owner : Owner → TokenRow → Bool
is_token_owner (id, source) t = t.user_id == id && str_eq t.user_source source

-- UNIQUE(user_id, user_source, event_type, channel, delay_minutes)
abbrev pub same_rule : NotificationRule → NotificationRule → Bool
same_rule r s =
    r.user_id == s.user_id
    && str_eq r.user_source s.user_source
    && str_eq r.event_type s.event_type
    && str_eq r.channel s.channel
    && r.delay_minutes == s.delay_minutes

pub data DbError : Type 0 where
  no_rows failed : DbError

unfoldable pub set_enabled : NotificationRule → List RuleRow → List RuleRow
set_enabled new [] = []
set_enabled new (r ∷ rows) =
    (if same_rule new r.rule
      then record { id = r.id; rule = record r.rule { enabled = new.enabled } }
      else r)
    ∷ set_enabled new rows

unfoldable pub upsert_rule : Uuid → NotificationRule → List RuleRow → List RuleRow
unfolding set_enabled
upsert_rule new_id new rows =
    if any (λ r. same_rule new r.rule) rows
    then set_enabled new rows
    else rows ++ record { id = new_id; rule = new } ∷ []

abbrev pub is_rule : Uuid → Owner → RuleRow → Bool
is_rule id owner r = r.id == id && is_rule_owner owner r

abbrev pub changed : Bool → ℕ → RuleRow → RuleRow
changed enabled delay r = record {
  id = r.id;
  rule = record r.rule { enabled = enabled; delay_minutes = delay };
}

unfoldable pub change_rules : Uuid → Owner → Bool → ℕ → List RuleRow → List RuleRow
change_rules id owner enabled delay [] = []
change_rules id owner enabled delay (r ∷ rows) =
    (if is_rule id owner r then changed enabled delay r else r)
    ∷ change_rules id owner enabled delay rows

-- No two rows have the same unique key.
unfoldable pub has_unique_rules : List RuleRow → Bool
has_unique_rules [] = true
has_unique_rules (r ∷ rows) = not (any (λ s. same_rule r.rule s.rule) rows) && has_unique_rules rows

unfoldable pub update_rule : Uuid → Owner → Bool → ℕ → List RuleRow → Result DbError (List RuleRow)
unfolding change_rules has_unique_rules
update_rule id owner enabled delay rows =
    if not (any (is_rule id owner) rows)
    then err no_rows
    else let next = change_rules id owner enabled delay rows in
      if has_unique_rules next then ok next else err failed

unfoldable pub delete_rules : Uuid → Owner → List RuleRow → List RuleRow
delete_rules id owner [] = []
delete_rules id owner (r ∷ rows) =
    let rest = delete_rules id owner rows in if is_rule id owner r then rest else r ∷ rest

unfoldable pub delete_rule : Uuid → Owner → List RuleRow → Result DbError (List RuleRow)
unfolding delete_rules
delete_rule id owner rows =
    if any (is_rule id owner) rows then ok (delete_rules id owner rows) else err no_rows

-- ListUserNotificationRules, up to its order.
unfoldable pub list_rules : Owner → List RuleRow → List RuleRow
list_rules owner [] = []
list_rules owner (r ∷ rows) =
    let rest = list_rules owner rows in if is_rule_owner owner r then r ∷ rest else rest

abbrev pub has_token : String → TokenRow → Bool
has_token token t = str_eq t.token token

unfoldable pub set_platform : Owner → String → String → List TokenRow → List TokenRow
set_platform owner token platform [] = []
set_platform owner token platform (t ∷ rows) =
    (if has_token token t && is_token_owner owner t then record t { platform = platform } else t)
    ∷ set_platform owner token platform rows

-- INSERT … ON CONFLICT (token) DO UPDATE … WHERE the row is the user's own: no row otherwise.
unfoldable pub save_push_token :
    Owner → String → String → List TokenRow → Result DbError (List TokenRow)
unfolding set_platform
save_push_token owner token platform rows =
    if not (any (has_token token) rows)
    then ok (
        rows
        ++ record { user_id = owner.0; user_source = owner.1; token = token; platform = platform }
          ∷ [])
    else if any (λ t. has_token token t && is_token_owner owner t) rows
    then ok (set_platform owner token platform rows)
    else err no_rows

unfoldable pub delete_tokens : Owner → String → List TokenRow → List TokenRow
delete_tokens owner token [] = []
delete_tokens owner token (t ∷ rows) =
    let rest = delete_tokens owner token rows in
    if has_token token t && is_token_owner owner t then rest else t ∷ rest

unfoldable pub delete_push_token : Owner → String → List TokenRow → Result DbError (List TokenRow)
unfolding delete_tokens
delete_push_token owner token rows =
    if any (λ t. has_token token t && is_token_owner owner t) rows
    then ok (delete_tokens owner token rows)
    else err no_rows
