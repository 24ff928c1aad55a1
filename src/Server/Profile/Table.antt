-- ===== src/Server/Profile/Table.antt =====
-- What the statements of internal/store/notification_rules.go keep of the table of rules, for values that the
-- handlers of cmd/server/main.go accept.
use wachd.Base.{
  ℕ, ◌≤◌, String, Bool, true, false, List, [], ◌∷◌, ◌++◌, some, any, All, str_eq, ◌==◌, ok, ◌≡◌,
  refl, arith, Bool-cases, inl, inr, ◌∙◌, any-append, eq_iff,
}
use wachd.Store.Profile.{
  RuleRow, Owner, same_rule, is_rule, set_enabled, upsert_rule, change_rules, update_rule,
  has_unique_rules, delete_rules, delete_rule, list_rules, is_rule_owner,
}
use wachd.Worker.Notifications.{NotificationRule}
use wachd.Server.Profile.{is_event, is_channel, find_rule}

-- A known event and channel, and a delay of at most a day.
abbrev pub IsValidRule : NotificationRule → Type 0
IsValidRule r =
    (is_event r.event_type ≡ true) × (is_channel r.channel ≡ true) × (r.delay_minutes ≤ 1440)

abbrev pub AllValid : List RuleRow → Type 0
AllValid rows = All (λ r. IsValidRule r.rule) rows

-- The rows are valid and no two have the same user, event, channel and delay.
pub record IsValid (rows : List RuleRow) : Type 0 where
  pub valid : AllValid rows
  pub distinct : has_unique_rules rows ≡ true

All-append {ℓ κ} :
    {A : Type ℓ} (P : A → Type κ) (xs : List A) (a : A) → All P xs → P a → All P (xs ++ a ∷ [])
All-append P [] a h p = (p, tt)
All-append P (x ∷ xs) a h p = (h.0, All-append P xs a h.1 p)

set_enabled-AllValid :
    (new : NotificationRule) (rows : List RuleRow) → AllValid rows → AllValid (set_enabled new rows)
unfolding set_enabled
set_enabled-AllValid new [] h = tt
set_enabled-AllValid new (r ∷ rows) h = elim (Bool-cases (same_rule new r.rule)) [
  | inl hit ↦ rw hit (h.0, set_enabled-AllValid new rows h.1)
  | inr miss ↦ rw miss (h.0, set_enabled-AllValid new rows h.1)
]

any-set_enabled :
    (rule new : NotificationRule) (rows : List RuleRow)
    → any (λ s. same_rule rule s.rule) (set_enabled new rows)
      ≡ any (λ s. same_rule rule s.rule) rows
unfolding set_enabled
any-set_enabled rule new [] = refl
any-set_enabled rule new (r ∷ rows) = elim (Bool-cases (same_rule new r.rule)) [
  | inl hit ↦ rw (hit, any-set_enabled rule new rows) refl
  | inr miss ↦ rw (miss, any-set_enabled rule new rows) refl
]

has_unique_rules-set_enabled :
    (new : NotificationRule) (rows : List RuleRow)
    → has_unique_rules (set_enabled new rows) ≡ has_unique_rules rows
unfolding has_unique_rules set_enabled
has_unique_rules-set_enabled new [] = refl
has_unique_rules-set_enabled new (r ∷ rows) = elim (Bool-cases (same_rule new r.rule)) [
  | inl hit ↦ rw (hit, any-set_enabled r.rule new rows, has_unique_rules-set_enabled new rows) refl
  | inr miss ↦
      rw (miss, any-set_enabled r.rule new rows, has_unique_rules-set_enabled new rows) refl
]

str_eq_sym : (s t : String) → str_eq s t ≡ str_eq t s
str_eq_sym s t = ground (arith, eq_iff s t, eq_iff t s)

==_sym : (m n : ℕ) → (m == n) ≡ (n == m)
==_sym m n = ground arith

same_rule_sym : (r s : NotificationRule) → same_rule r s ≡ same_rule s r
same_rule_sym r s =
    rw
      (
        str_eq_sym r.user_source s.user_source,
        str_eq_sym r.event_type s.event_type,
        str_eq_sym r.channel s.channel,
        ==_sym r.user_id s.user_id,
        ==_sym r.delay_minutes s.delay_minutes,
      )
      refl

has_unique_rules-append :
    (new : RuleRow) (rows : List RuleRow)
    → any (λ r. same_rule new.rule r.rule) rows ≡ false
    → has_unique_rules rows ≡ true
    → has_unique_rules (rows ++ new ∷ []) ≡ true
unfolding has_unique_rules
has_unique_rules-append new [] e h = refl
has_unique_rules-append new (r ∷ rows) e h = ground (
  arith,
  any-append (λ s. same_rule r.rule s.rule) rows (new ∷ []),
  same_rule_sym new.rule r.rule,
  has_unique_rules-append new rows,
)

pub upsert_rule-IsValid :
    (new_id : ℕ) (new : NotificationRule) (rows : List RuleRow)
    → IsValidRule new
    → IsValid rows
    → IsValid (upsert_rule new_id new rows)
unfolding upsert_rule
upsert_rule-IsValid new_id new rows n v = elim (Bool-cases (any (λ r. same_rule new r.rule) rows)) [
  | inl old ↦ rw old (record {
    valid = set_enabled-AllValid new rows v.valid;
    distinct = has_unique_rules-set_enabled new rows ∙ v.distinct;
  })
  | inr fresh ↦ rw fresh (record {
    valid = All-append (λ (r : RuleRow). IsValidRule r.rule) rows _ v.valid n;
    distinct = has_unique_rules-append _ rows fresh v.distinct;
  })
]

change_rules-AllValid :
    (id : ℕ) (owner : Owner) (enabled : Bool) (delay : ℕ) (rows : List RuleRow)
    → delay ≤ 1440
    → AllValid rows
    → AllValid (change_rules id owner enabled delay rows)
unfolding change_rules
change_rules-AllValid id owner enabled delay [] d h = tt
change_rules-AllValid id owner enabled delay (r ∷ rows) d h =
    elim (Bool-cases (is_rule id owner r)) [
      | inl hit ↦
          rw hit ((h.0.0, h.0.1, d), change_rules-AllValid id owner enabled delay rows d h.1)
      | inr miss ↦ rw miss (h.0, change_rules-AllValid id owner enabled delay rows d h.1)
    ]

delete_rules-AllValid :
    (id : ℕ) (owner : Owner) (rows : List RuleRow)
    → AllValid rows
    → AllValid (delete_rules id owner rows)
unfolding delete_rules
delete_rules-AllValid id owner [] h = tt
delete_rules-AllValid id owner (r ∷ rows) h = elim (Bool-cases (is_rule id owner r)) [
  | inl hit ↦ rw hit (delete_rules-AllValid id owner rows h.1)
  | inr miss ↦ rw miss (h.0, delete_rules-AllValid id owner rows h.1)
]

any-delete_rules :
    (p : RuleRow → Bool) (id : ℕ) (owner : Owner) (rows : List RuleRow)
    → any p rows ≡ false
    → any p (delete_rules id owner rows) ≡ false
unfolding delete_rules
any-delete_rules p id owner [] h = refl
any-delete_rules p id owner (r ∷ rows) h = ground (arith, any-delete_rules p id owner rows)

has_unique_rules-delete_rules :
    (id : ℕ) (owner : Owner) (rows : List RuleRow)
    → has_unique_rules rows ≡ true
    → has_unique_rules (delete_rules id owner rows) ≡ true
unfolding has_unique_rules delete_rules
has_unique_rules-delete_rules id owner [] h = refl
has_unique_rules-delete_rules id owner (r ∷ rows) h = ground (
  arith,
  any-delete_rules (λ s. same_rule r.rule s.rule) id owner rows,
  has_unique_rules-delete_rules id owner rows,
)

pub update_rule-IsValid :
    (id : ℕ) (owner : Owner) (enabled : Bool) (delay : ℕ) (rows : List RuleRow)
    {next : List RuleRow}
    → delay ≤ 1440
    → IsValid rows
    → update_rule id owner enabled delay rows ≡ ok next
    → IsValid next
unfolding update_rule
update_rule-IsValid id owner enabled delay rows {next} d v e =
    elim (Bool-cases (any (is_rule id owner) rows)) [
      | inr nobody ↦ absurd (ground arith)
      | inl own ↦ elim (Bool-cases (has_unique_rules (change_rules id owner enabled delay rows))) [
        | inr twin ↦ absurd (ground arith)
        | inl unique ↦
            let same : next ≡ change_rules id owner enabled delay rows = ground arith in
            rw same (record {
              valid = change_rules-AllValid id owner enabled delay rows d v.valid;
              distinct = unique;
            })
      ]
    ]

pub delete_rule-IsValid :
    (id : ℕ) (owner : Owner) (rows : List RuleRow) {next : List RuleRow}
    → IsValid rows
    → delete_rule id owner rows ≡ ok next
    → IsValid next
unfolding delete_rule
delete_rule-IsValid id owner rows {next} v e =
    let same : next ≡ delete_rules id owner rows = ground arith in
    rw same (record {
      valid = delete_rules-AllValid id owner rows v.valid;
      distinct = has_unique_rules-delete_rules id owner rows v.distinct;
    })

pub list_rules-AllValid :
    (owner : Owner) (rows : List RuleRow) → AllValid rows → AllValid (list_rules owner rows)
unfolding list_rules
list_rules-AllValid owner [] h = tt
list_rules-AllValid owner (r ∷ rows) h = elim (Bool-cases (is_rule_owner owner r)) [
  | inl hit ↦ rw hit (h.0, list_rules-AllValid owner rows h.1)
  | inr miss ↦ rw miss (list_rules-AllValid owner rows h.1)
]

pub find_rule-IsValidRule :
    (id : ℕ) (rows : List RuleRow) {found : NotificationRule}
    → AllValid rows
    → find_rule id rows ≡ some found
    → IsValidRule found
unfolding find_rule
find_rule-IsValidRule id [] h e = cc
find_rule-IsValidRule id (r ∷ rows) {found} h e = elim (Bool-cases (r.id == id)) [
  | inl hit ↦ let same : found ≡ r.rule = ground arith in rw same h.0
  | inr miss ↦ find_rule-IsValidRule id rows {found = found} h.1 (rw miss at e)
]
