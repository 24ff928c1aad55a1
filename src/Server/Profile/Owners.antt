-- ===== src/Server/Profile/Owners.antt =====
-- What the statements of internal/store/notification_rules.go and push_tokens.go do to the rows of a user
-- other than their own.
use wachd.Base.{
  ℕ, String, Bool, true, false, ◌&&◌, List, [], ◌∷◌, ◌++◌, any, if◌then◌else◌, str_eq, eq_iff, ◌==◌,
  ◌≡◌, refl, arith, Bool-cases, inl, inr,
}
use wachd.Store.Profile.{
  RuleRow, TokenRow, Owner, is_rule_owner, is_token_owner, same_rule, set_enabled, upsert_rule,
  change_rules, delete_rules, list_rules, set_platform, delete_tokens,
}
use wachd.Worker.Notifications.{NotificationRule}

abbrev pub same_owner : Owner → Owner → Bool
same_owner (i, s) (j, t) = i == j && str_eq s t

-- The user's tokens, up to their order.
unfoldable pub list_tokens : Owner → List TokenRow → List TokenRow
list_tokens owner [] = []
list_tokens owner (t ∷ rows) =
    let rest = list_tokens owner rows in if is_token_owner owner t then t ∷ rest else rest

module _ (me other : Owner) (apart : same_owner me other ≡ false) where
  pub not_owned :
      (id : ℕ) (source : String)
      → (id == me.0 && str_eq source me.1) ≡ true
      → (id == other.0 && str_eq source other.1) ≡ false
  not_owned id source mine =
      ground (arith, eq_iff source me.1, eq_iff source other.1, eq_iff me.1 other.1)

  pub list_rules-set_enabled :
      (new : NotificationRule) (rows : List RuleRow)
      → (new.user_id == me.0 && str_eq new.user_source me.1) ≡ true
      → list_rules other (set_enabled new rows) ≡ list_rules other rows
  unfolding list_rules set_enabled
  list_rules-set_enabled new [] mine = refl
  list_rules-set_enabled new (r ∷ rows) mine = elim (Bool-cases (same_rule new r.rule)) [
    | inr miss ↦ rw (miss, list_rules-set_enabled new rows mine) refl
    | inl hit ↦
        let own : (r.rule.user_id == me.0 && str_eq r.rule.user_source me.1) ≡ true = ground (
          arith,
          eq_iff new.user_source r.rule.user_source,
          eq_iff new.user_source me.1,
          eq_iff r.rule.user_source me.1,
        ) in
        rw (hit, not_owned r.rule.user_id r.rule.user_source own)
          (list_rules-set_enabled new rows mine)
  ]

  pub list_rules-append :
      (row : RuleRow) (rows : List RuleRow)
      → is_rule_owner other row ≡ false
      → list_rules other (rows ++ row ∷ []) ≡ list_rules other rows
  unfolding list_rules
  list_rules-append row [] h = rw h refl
  list_rules-append row (r ∷ rows) h = rw (list_rules-append row rows h) refl

  pub list_rules-upsert_rule :
      (new_id : ℕ) (new : NotificationRule) (rows : List RuleRow)
      → (new.user_id == me.0 && str_eq new.user_source me.1) ≡ true
      → list_rules other (upsert_rule new_id new rows) ≡ list_rules other rows
  unfolding upsert_rule
  list_rules-upsert_rule new_id new rows mine =
      elim (Bool-cases (any (λ r. same_rule new r.rule) rows)) [
        | inl old ↦ rw old (list_rules-set_enabled new rows mine)
        | inr fresh ↦
            rw fresh (list_rules-append _ rows (not_owned new.user_id new.user_source mine))
      ]

  pub list_rules-change_rules :
      (id : ℕ) (enabled : Bool) (delay : ℕ) (rows : List RuleRow)
      → list_rules other (change_rules id me enabled delay rows) ≡ list_rules other rows
  unfolding list_rules change_rules
  list_rules-change_rules id enabled delay [] = refl
  list_rules-change_rules id enabled delay (r ∷ rows) = ground (
    arith,
    not_owned r.rule.user_id r.rule.user_source,
    list_rules-change_rules id enabled delay rows,
  )

  pub list_rules-delete_rules :
      (id : ℕ) (rows : List RuleRow)
      → list_rules other (delete_rules id me rows) ≡ list_rules other rows
  unfolding list_rules delete_rules
  list_rules-delete_rules id [] = refl
  list_rules-delete_rules id (r ∷ rows) =
      ground (arith, not_owned r.rule.user_id r.rule.user_source, list_rules-delete_rules id rows)

  pub list_tokens-append :
      (row : TokenRow) (rows : List TokenRow)
      → is_token_owner other row ≡ false
      → list_tokens other (rows ++ row ∷ []) ≡ list_tokens other rows
  unfolding list_tokens
  list_tokens-append row [] h = rw h refl
  list_tokens-append row (t ∷ rows) h = rw (list_tokens-append row rows h) refl

  pub list_tokens-set_platform :
      (token platform : String) (rows : List TokenRow)
      → list_tokens other (set_platform me token platform rows) ≡ list_tokens other rows
  unfolding list_tokens set_platform
  list_tokens-set_platform token platform [] = refl
  list_tokens-set_platform token platform (t ∷ rows) =
      ground
        (arith, not_owned t.user_id t.user_source, list_tokens-set_platform token platform rows)

  pub list_tokens-delete_tokens :
      (token : String) (rows : List TokenRow)
      → list_tokens other (delete_tokens me token rows) ≡ list_tokens other rows
  unfolding list_tokens delete_tokens
  list_tokens-delete_tokens token [] = refl
  list_tokens-delete_tokens token (t ∷ rows) =
      ground (arith, not_owned t.user_id t.user_source, list_tokens-delete_tokens token rows)
