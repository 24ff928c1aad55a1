-- ===== src/Server/Profile/Own.antt =====
-- A request on a profile (cmd/server/main.go) touches the rules and the tokens of nobody else.
use wachd.Base.{
  ℕ, String, Bool, true, false, not, ◌&&◌, Option, none, some, any, str_eq, eq_iff, ◌==◌, ◌≡◌, refl,
  arith, Bool-cases, inl, inr,
}
use wachd.Base.Int.{pos}
use wachd.Access.{Session, session_identity}
use wachd.Store.Profile.{
  Owner, is_token_owner, is_rule, change_rules, update_rule, delete_rule, list_rules, has_token,
  save_push_token, delete_push_token, has_unique_rules,
}
use wachd.Worker.Notifications.{NotificationRule}
use wachd.Server.Profile.{
  Profiles, Reply, NewRule, RuleChange, NewToken, Request, create_rule, change_current, change_rule,
  after_update, after_delete, after_save, after_deregister, register_token, handle, is_event,
  is_channel, is_bad_delay, is_given, given_or, add_rule, edit_rule, remove_rule, add_token,
  remove_token,
}
use wachd.Server.Profile.Valid.{past}
use wachd.Server.Profile.Owners.{
  same_owner, list_tokens, not_owned, list_rules-upsert_rule, list_rules-change_rules,
  list_rules-delete_rules, list_tokens-append, list_tokens-set_platform, list_tokens-delete_tokens,
}

owns_itself : (me : Owner) → (me.0 == me.0 && str_eq me.1 me.1) ≡ true
owns_itself me = ground (arith, eq_iff me.1 me.1)

module _ (me other : Owner) (apart : same_owner me other ≡ false) (s : Profiles) where
  -- The other user has what it had.
  abbrev Untouched : Profiles × Reply → Type 0
  Untouched r =
      (list_rules other r.0.rules ≡ list_rules other s.rules)
      × (list_tokens other r.0.tokens ≡ list_tokens other s.tokens)

  create_rule-Untouched :
      (down : Bool) (new_id : ℕ) (body : Option NewRule)
      → Untouched (create_rule down new_id me body s)
  unfolding create_rule
  create_rule-Untouched down new_id none = (refl, refl)
  create_rule-Untouched down new_id (some body) =
      past Untouched (not (is_event body.event_type)) (refl, refl)
        λ _.
          past Untouched (not (is_channel body.channel)) (refl, refl)
            λ _.
              past Untouched (is_bad_delay body.delay_minutes) (refl, refl)
                λ _.
                  past Untouched down (refl, refl)
                    λ _. (
                      list_rules-upsert_rule me other apart new_id _ s.rules (owns_itself me),
                      refl,
                    )

  update_rule-Untouched :
      (id : ℕ) (enabled : Bool) (delay : ℕ)
      → Untouched (after_update s (update_rule id me enabled delay s.rules))
  unfolding update_rule after_update
  update_rule-Untouched id enabled delay = elim (Bool-cases (any (is_rule id me) s.rules)) [
    | inr nobody ↦ rw nobody (refl, refl)
    | inl own ↦ elim (Bool-cases (has_unique_rules (change_rules id me enabled delay s.rules))) [
      | inr twin ↦ rw (own, twin) (refl, refl)
      | inl unique ↦
          rw (own, unique) (list_rules-change_rules me other apart id enabled delay s.rules, refl)
    ]
  ]

  change_current-Untouched :
      (down : Bool) (id : ℕ) (body : RuleChange) (current : Option NotificationRule)
      → Untouched (change_current down id me body current s)
  unfolding change_current
  change_current-Untouched down id body none = (refl, refl)
  change_current-Untouched down id body (some current) =
      past Untouched down (refl, refl) λ _. update_rule-Untouched id _ _

  change_rule-Untouched :
      (listing_down down : Bool) (id : ℕ) (body : Option RuleChange)
      → Untouched (change_rule listing_down down me id body s)
  unfolding change_rule
  change_rule-Untouched listing_down down id none = (refl, refl)
  change_rule-Untouched listing_down down id (some body) =
      past Untouched (not (is_given body.enabled) && not (is_given body.delay_minutes)) (refl, refl)
        λ _.
          past Untouched (is_bad_delay (given_or body.delay_minutes (pos 0))) (refl, refl)
            λ _.
              past Untouched listing_down (refl, refl) λ _. change_current-Untouched down id body _

  delete_rule-Untouched : (id : ℕ) → Untouched (after_delete s (delete_rule id me s.rules))
  unfolding delete_rule after_delete
  delete_rule-Untouched id = elim (Bool-cases (any (is_rule id me) s.rules)) [
    | inr nobody ↦ rw nobody (refl, refl)
    | inl own ↦ rw own (list_rules-delete_rules me other apart id s.rules, refl)
  ]

  save_push_token-Untouched :
      (token platform : String)
      → Untouched (after_save s (save_push_token me token platform s.tokens))
  unfolding save_push_token after_save
  save_push_token-Untouched token platform = elim (Bool-cases (any (has_token token) s.tokens)) [
    | inr fresh ↦ rw fresh (
      refl,
      list_tokens-append me other apart _ s.tokens
          (not_owned me other apart me.0 me.1 (owns_itself me)),
    )
    | inl known ↦ elim (Bool-cases (any (λ t. has_token token t && is_token_owner me t) s.tokens)) [
      | inr foreign ↦ rw (known, foreign) (refl, refl)
      | inl own ↦
          rw (known, own) (refl, list_tokens-set_platform me other apart token platform s.tokens)
    ]
  ]

  register_token-Untouched :
      (down : Bool) (body : Option NewToken) → Untouched (register_token down me body s)
  unfolding register_token
  register_token-Untouched down none = (refl, refl)
  register_token-Untouched down (some body) =
      past Untouched (str_eq body.token "") (refl, refl)
        λ _.
          past Untouched (not (str_eq body.platform "ios") && not (str_eq body.platform "android"))
            (refl, refl)
            λ _.
              past Untouched down (refl, refl)
                λ _. save_push_token-Untouched body.token body.platform

  delete_push_token-Untouched :
      (token : String) → Untouched (after_deregister s (delete_push_token me token s.tokens))
  unfolding delete_push_token after_deregister
  delete_push_token-Untouched token =
      elim (Bool-cases (any (λ t. has_token token t && is_token_owner me t) s.tokens)) [
        | inr nobody ↦ rw nobody (refl, refl)
        | inl own ↦ rw own (refl, list_tokens-delete_tokens me other apart token s.tokens)
      ]

-- Whose rows a session may touch.
abbrev pub acts_for : Option Session → Owner → Bool
acts_for none owner = false
acts_for (some sess) owner = same_owner (session_identity sess) owner

-- Whatever a request asks for, and whatever fails: a user for whom the session does not act has the
-- notification rules and the push tokens that it had.
pub handle-others :
    (sess : Option Session) (request : Request) (s : Profiles) (other : Owner)
    → acts_for sess other ≡ false
    → (list_rules other (handle sess request s).0.rules ≡ list_rules other s.rules)
      × (list_tokens other (handle sess request s).0.tokens ≡ list_tokens other s.tokens)
unfolding handle
handle-others none (add_rule down new_id body) s other apart = (refl, refl)
handle-others none (edit_rule listing_down down id body) s other apart = (refl, refl)
handle-others none (remove_rule down id) s other apart = (refl, refl)
handle-others none (add_token down body) s other apart = (refl, refl)
handle-others none (remove_token down token) s other apart = (refl, refl)
handle-others (some sess) (add_rule down new_id body) s other apart =
    create_rule-Untouched (session_identity sess) other apart s down new_id body
handle-others (some sess) (edit_rule listing_down down none body) s other apart = (refl, refl)
handle-others (some sess) (edit_rule listing_down down (some id) body) s other apart =
    change_rule-Untouched (session_identity sess) other apart s listing_down down id body
handle-others (some sess) (remove_rule down none) s other apart = (refl, refl)
handle-others (some sess) (remove_rule down (some id)) s other apart =
    past (Untouched (session_identity sess) other apart s) down (refl, refl)
      λ _. delete_rule-Untouched (session_identity sess) other apart s id
handle-others (some sess) (add_token down body) s other apart =
    register_token-Untouched (session_identity sess) other apart s down body
handle-others (some sess) (remove_token down token) s other apart =
    past (Untouched (session_identity sess) other apart s) (str_eq token "") (refl, refl)
      λ _.
        past (Untouched (session_identity sess) other apart s) down (refl, refl)
          λ _. delete_push_token-Untouched (session_identity sess) other apart s token
