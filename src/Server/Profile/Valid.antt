-- ===== src/Server/Profile/Valid.antt =====
-- What holds of the notification rules, whatever requests come: the worker relies on it when it counts
-- delays.
use wachd.Base.{
  ℕ, ◌≤◌, Bool, true, false, not, ◌&&◌, List, [], ◌∷◌, Option, none, some, if◌then◌else◌, str_eq,
  Result, ok, err, ◌≡◌, refl, arith, subst, sym,
}
use wachd.Base.Int.{ℤ, pos, negsuc, pos_part}
use wachd.Access.{Session, session_identity}
use wachd.Store.Profile.{
  RuleRow, TokenRow, Owner, DbError, no_rows, failed, save_push_token, delete_push_token,
  update_rule, list_rules,
}
use wachd.Worker.Notifications.{NotificationRule}
use wachd.Server.Profile.{
  Profiles, NewRule, RuleChange, Request, is_event, is_channel, is_bad_delay, create_rule,
  find_rule, change_current, change_rule, after_update, after_delete, handle, handle_all, add_rule,
  edit_rule, remove_rule, add_token, remove_token, given_or, is_given, delay_or, Reply, NewToken,
  after_save, after_deregister, register_token,
}
use wachd.Server.Profile.Table.{
  IsValidRule, upsert_rule-IsValid, update_rule-IsValid, delete_rule-IsValid, list_rules-AllValid,
  find_rule-IsValidRule, IsValid,
}

-- A refusal keeps what holds, and past it its test was negative.
pub past {κ} :
    (P : Profiles × Reply → Type κ) (test : Bool) {refused rest : Profiles × Reply}
    → P refused
    → (test ≡ false → P rest)
    → P (if test then refused else rest)
past P true p q = p
past P false p q = q refl

delay_bounded : (d : ℤ) → is_bad_delay d ≡ false → pos_part d ≤ 1440
delay_bounded (pos n) h = ground arith
delay_bounded (negsuc n) h = omega arith

abbrev Keeps : Profiles × Reply → Type 0
Keeps r = IsValid r.0.rules

positive : {b : Bool} → not b ≡ false → b ≡ true
positive {b} h = ground arith

create_rule-IsValid :
    (down : Bool) (new_id : ℕ) (owner : Owner) (body : Option NewRule) (s : Profiles)
    → IsValid s.rules
    → Keeps (create_rule down new_id owner body s)
unfolding create_rule
create_rule-IsValid down new_id owner none s v = v
create_rule-IsValid down new_id owner (some body) s v =
    past Keeps (not (is_event body.event_type)) v λ e.
      past Keeps (not (is_channel body.channel)) v λ c.
        past Keeps (is_bad_delay body.delay_minutes) v λ d. past Keeps down v λ _.
          upsert_rule-IsValid new_id _ s.rules
            (positive e, positive c, delay_bounded body.delay_minutes d) v

after_update-IsValid :
    (s : Profiles) (r : Result DbError (List RuleRow))
    → IsValid s.rules
    → ((next : List RuleRow) → r ≡ ok next → IsValid next)
    → Keeps (after_update s r)
unfolding after_update
after_update-IsValid s (ok rules) v h = h rules refl
after_update-IsValid s (err e) v h = v

delay_or-le :
    (given : Option ℤ) (delay : ℕ)
    → is_bad_delay (given_or given (pos 0)) ≡ false
    → delay ≤ 1440
    → delay_or given delay ≤ 1440
delay_or-le none delay h d = d
delay_or-le (some g) delay h d = delay_bounded g h

change_current-IsValid :
    (down : Bool) (id : ℕ) (owner : Owner) (body : RuleChange) (current : Option NotificationRule)
    (s : Profiles)
    → is_bad_delay (given_or body.delay_minutes (pos 0)) ≡ false
    → ((found : NotificationRule) → current ≡ some found → IsValidRule found)
    → IsValid s.rules
    → Keeps (change_current down id owner body current s)
unfolding change_current
change_current-IsValid down id owner body none s d h v = v
change_current-IsValid down id owner body (some current) s d h v = past Keeps down v λ _.
    after_update-IsValid s
      (update_rule id owner (given_or body.enabled current.enabled)
        (delay_or body.delay_minutes current.delay_minutes) s.rules)
      v
      (λ next.
        update_rule-IsValid id owner (given_or body.enabled current.enabled)
          (delay_or body.delay_minutes current.delay_minutes) s.rules {next = next}
          (delay_or-le body.delay_minutes current.delay_minutes d (h current refl).2) v)

change_rule-IsValid :
    (listing_down down : Bool) (owner : Owner) (id : ℕ) (body : Option RuleChange) (s : Profiles)
    → IsValid s.rules
    → Keeps (change_rule listing_down down owner id body s)
unfolding change_rule
change_rule-IsValid listing_down down owner id none s v = v
change_rule-IsValid listing_down down owner id (some body) s v =
    past Keeps (not (is_given body.enabled) && not (is_given body.delay_minutes)) v λ _.
      past Keeps (is_bad_delay (given_or body.delay_minutes (pos 0))) v λ d.
        past Keeps listing_down v λ _.
          change_current-IsValid down id owner body (find_rule id (list_rules owner s.rules)) s d
            (λ found.
              find_rule-IsValidRule id (list_rules owner s.rules) {found = found}
                (list_rules-AllValid owner s.rules v.valid))
            v

after_delete-IsValid :
    (s : Profiles) (r : Result DbError (List RuleRow))
    → IsValid s.rules
    → ((next : List RuleRow) → r ≡ ok next → IsValid next)
    → Keeps (after_delete s r)
unfolding after_delete
after_delete-IsValid s (ok rules) v h = h rules refl
after_delete-IsValid s (err e) v h = v

-- Requests for tokens leave the rules alone.
after_save-rules :
    (s : Profiles) (r : Result DbError (List TokenRow)) → (after_save s r).0.rules ≡ s.rules
unfolding after_save
after_save-rules s (ok tokens) = refl
after_save-rules s (err no_rows) = refl
after_save-rules s (err failed) = refl

after_deregister-rules :
    (s : Profiles) (r : Result DbError (List TokenRow)) → (after_deregister s r).0.rules ≡ s.rules
unfolding after_deregister
after_deregister-rules s (ok tokens) = refl
after_deregister-rules s (err no_rows) = refl
after_deregister-rules s (err failed) = refl

register_token-rules :
    (down : Bool) (owner : Owner) (body : Option NewToken) (s : Profiles)
    → (register_token down owner body s).0.rules ≡ s.rules
unfolding register_token
register_token-rules down owner none s = refl
register_token-rules down owner (some body) s =
    let Same : Profiles × Reply → Type 0 = λ r. r.0.rules ≡ s.rules in
    past Same (str_eq body.token "") refl λ _.
      past Same (not (str_eq body.platform "ios") && not (str_eq body.platform "android")) refl λ _.
        past Same down refl
          λ _. after_save-rules s (save_push_token owner body.token body.platform s.tokens)

handle-IsValid :
    (sess : Option Session) (request : Request) (s : Profiles)
    → IsValid s.rules
    → Keeps (handle sess request s)
unfolding handle
handle-IsValid none (add_rule down new_id body) s v = v
handle-IsValid (some sess) (add_rule down new_id body) s v =
    create_rule-IsValid down new_id (session_identity sess) body s v
handle-IsValid none (edit_rule listing_down down id body) s v = v
handle-IsValid (some sess) (edit_rule listing_down down none body) s v = v
handle-IsValid (some sess) (edit_rule listing_down down (some id) body) s v =
    change_rule-IsValid listing_down down (session_identity sess) id body s v
handle-IsValid none (remove_rule down id) s v = v
handle-IsValid (some sess) (remove_rule down none) s v = v
handle-IsValid (some sess) (remove_rule down (some id)) s v = past Keeps down v λ _.
    after_delete-IsValid s _ v
      (λ next. delete_rule-IsValid id (session_identity sess) s.rules {next = next} v)
handle-IsValid none (add_token down body) s v = v
handle-IsValid (some sess) (add_token down body) s v =
    subst IsValid (sym (register_token-rules down (session_identity sess) body s)) v
handle-IsValid none (remove_token down token) s v = v
handle-IsValid (some sess) (remove_token down token) s v = past Keeps (str_eq token "") v λ _.
    past Keeps down v λ _.
      subst IsValid
        (sym (after_deregister-rules s (delete_push_token (session_identity sess) token s.tokens)))
        v

-- Whatever requests come, of any users and in any order, and whichever of them fail: the table of
-- notification rules, if it was so before, has only rules of a known event and channel with a delay of at
-- most 1440 minutes, and no two of the same user, event, channel and delay.
pub handle_all-IsValid :
    (requests : List (Option Session × Request)) (s : Profiles)
    → IsValid s.rules
    → IsValid (handle_all requests s).rules
unfolding handle_all
handle_all-IsValid [] s v = v
handle_all-IsValid ((sess, request) ∷ requests) s v =
    handle_all-IsValid requests (handle sess request s).0 (handle-IsValid sess request s v)
