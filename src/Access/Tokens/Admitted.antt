-- ===== src/Access/Tokens/Admitted.antt =====
-- What an API token is good for: what its owner was granted, no more.
use wachd.Access.Tokens.Granted.{
  is_row, is_granted, rows_by_member-granted, role_of-roles_from, any-team_ids_of, Gate, access,
  responder, admin, passes, opens, signed_in,
}
use wachd.Base.{
  ap, >>=-eq-ok, Occurs, here, there, Option-cases, ℕ, String, Bool, true, false, ◌&&◌, ◌||◌, List,
  [], ◌∷◌, Option, none, some, any, ◌==◌, if◌then◌else◌, str_eq, Result, ok, err, ◌≡◌, inl, inr,
  refl, arith, Bool-cases, subst, sym, ◌∙◌, eq_iff,
}
use wachd.Access.{
  Refusal, unauthenticated, Session, TeamAccess, role_of, require_team_access, require_team_admin,
  require_team_responder, require_no_force_change, Uuid,
}
use wachd.Access.Tokens.{
  ApiToken, TokenOwner, Accounts, is_unexpired, find_owner, get_api_token_with_user,
  session_of_owner, Faults, Request, bearer_of, bearer_prefix, team_route, bearer_or_cookie,
  on_token, refuse, or_unauthenticated,
}
use wachd.Oncall.Manager.{Query}
use text.Mathlib.Text.{starts_with}
use wachd.Access.Groups.{Groups, rows_by_member, get_local_user_teams}

find_owner-Occurs :
    (user_id : Uuid) (users : List TokenOwner) {u : TokenOwner}
    → find_owner user_id users ≡ some u
    → Occurs u users × (u.id ≡ user_id) × (u.is_active ≡ true)
unfolding find_owner
find_owner-Occurs user_id [] e = cc
find_owner-Occurs user_id (x ∷ users) {u} e = elim (Bool-cases (x.id == user_id && x.is_active)) [
  | inl found ↦
      let ux : u ≡ x = ground arith in (here ux, rw ux (ground arith), rw ux (ground arith))
  | inr later ↦
      let (o, i, a) = find_owner-Occurs user_id users {u = u} (rw later at e) in (there o, i, a)
]

-- A valid token of an active user.
pub record IsToken (now : ℕ) (hash : String) (users : List TokenOwner) (tokens : List ApiToken)
    (t : ApiToken) (u : TokenOwner) : Type 0 where
  pub stored : Occurs t tokens
  pub owner : Occurs u users
  pub hashed : t.token_hash ≡ hash
  pub unexpired : is_unexpired now t ≡ true
  pub owned : u.id ≡ t.user_id
  pub active : u.is_active ≡ true

module _ (now : ℕ) (hash : String) (users : List TokenOwner) where
  IsToken-cons :
      {x t : ApiToken} {u : TokenOwner} {tokens : List ApiToken}
      → IsToken now hash users tokens t u
      → IsToken now hash users (x ∷ tokens) t u
  IsToken-cons k = record {
    stored = there k.stored;
    owner = k.owner;
    hashed = k.hashed;
    unexpired = k.unexpired;
    owned = k.owned;
    active = k.active;
  }

  IsToken-head :
      (x : ApiToken) (v : TokenOwner) (tokens : List ApiToken) {t : ApiToken} {u : TokenOwner}
      → (str_eq x.token_hash hash && is_unexpired now x) ≡ true
      → find_owner x.user_id users ≡ some v
      → ◌≡◌ {A = Option (ApiToken × TokenOwner)} (some (x, v)) (some (t, u))
      → IsToken now hash users (x ∷ tokens) t u
  IsToken-head x v tokens {t} {u} fits found e =
      let (o, i, a) = find_owner-Occurs x.user_id users found in
      let tx : t ≡ x = cc in
      let uv : u ≡ v = cc in
      record {
        stored = here tx;
        owner = subst (λ w. Occurs w users) (sym uv) o;
        hashed = rw tx (ground (arith, eq_iff x.token_hash hash));
        unexpired = rw tx (ground arith);
        owned = rw (tx, uv) i;
        active = rw uv a;
      }

  get_api_token_with_user-IsToken :
      (tokens : List ApiToken) {t : ApiToken} {u : TokenOwner}
      → get_api_token_with_user now hash users tokens ≡ some (t, u)
      → IsToken now hash users tokens t u
  unfolding get_api_token_with_user
  get_api_token_with_user-IsToken [] e = cc
  get_api_token_with_user-IsToken (x ∷ tokens) {t} {u} e =
      elim (Bool-cases (str_eq x.token_hash hash && is_unexpired now x)) [
        | inr other ↦
            IsToken-cons (get_api_token_with_user-IsToken tokens {t = t} {u = u} (rw other at e))
        | inl fits ↦ elim (Option-cases (find_owner x.user_id users)) [
          | inl nobody ↦
              IsToken-cons
                (get_api_token_with_user-IsToken tokens {t = t} {u = u} (rw (fits, nobody) at e))
          | inr (v, found) ↦ IsToken-head x v tokens fits found (rw (fits, found) at e)
        ]
      ]

-- What opens a team's gate: being a superadmin, or a grant to one of the user's groups.
pub data MayPass (g : Groups) (u : TokenOwner) (gate : Gate) (team_id : Uuid) : Type 0 where
  superadmin : u.is_superadmin ≡ true → MayPass g u gate team_id
  by_grant : is_granted g u.id team_id (opens gate) ≡ true → MayPass g u gate team_id

-- What a session of an owner's rows passes, the owner or a row opens.
passes-session_of_owner :
    (u : TokenOwner) (gate : Gate) (team_id : Uuid) (rows : List TeamAccess)
    → passes gate (signed_in (session_of_owner u rows)) team_id ≡ true
    → (u.is_superadmin || any (is_row team_id (opens gate)) rows) ≡ true
unfolding session_of_owner require_team_access require_team_responder require_team_admin role_of
passes-session_of_owner u access team_id rows h = rw (← any-team_ids_of team_id rows) h
passes-session_of_owner u responder team_id rows h =
    ground (arith, role_of-roles_from team_id (opens responder) rows [])
passes-session_of_owner u admin team_id rows h =
    ground (arith, role_of-roles_from team_id (opens admin) rows [])

-- A stored session, or that of an active user with an unexpired token who may pass the gate.
pub data IsAdmitted (get_session : String → Query Session) (now : ℕ) (raw hash : String)
    (db : Accounts) (gate : Gate) (team_id : Uuid) (sess : Session) : Type 0 where
  by_session :
      get_session raw ≡ ok (some sess) → IsAdmitted get_session now raw hash db gate team_id sess
  by_token :
      (t : ApiToken) (u : TokenOwner)
      → IsToken now hash db.users db.tokens t u
      → sess.local_user_id ≡ some u.id
      → MayPass db.groups u gate team_id
      → IsAdmitted get_session now raw hash db gate team_id sess

stored_session-found :
    (q : Query Session) {sess : Session} → or_unauthenticated q ≡ ok sess → q ≡ ok (some sess)
stored_session-found (err e) h = cc
stored_session-found (ok none) h = cc
stored_session-found (ok (some s)) h = ground arith

calm_session :
    (s : Session) {sess : Session}
    → refuse s (require_no_force_change (some s)) ≡ ok sess
    → s ≡ sess
unfolding refuse require_no_force_change
calm_session s e = ground arith

-- Past the failing lookup.
bearer_found :
    (failed : Bool) {r : Result Refusal Session} {s : Session}
    → (if failed then err unauthenticated else r) ≡ ok s
    → r ≡ ok s
bearer_found true e = cc
bearer_found false e = e

module _ (order : List TeamAccess → List TeamAccess)
    (order_any : (p : TeamAccess → Bool) (rows : List TeamAccess)
      → any p (order rows) ≡ any p rows) where
  get_local_user_teams-granted :
      (team_id user_id : Uuid) (test : String → Bool) (g : Groups)
      → any (is_row team_id test) (get_local_user_teams order user_id g) ≡ true
      → is_granted g user_id team_id test ≡ true
  unfolding get_local_user_teams is_granted
  get_local_user_teams-granted team_id user_id test g h =
      rows_by_member-granted team_id user_id test g g.members
        (sym (order_any (is_row team_id test) (rows_by_member g user_id g.members)) ∙ h)

  -- A session that is made of an owner's rows passes no gate but by the owner's grants.
  session_of_owner-MayPass :
      (g : Groups) (u : TokenOwner) (gate : Gate) (team_id : Uuid) (failed : Bool)
      → passes gate
          (signed_in
            (session_of_owner u (if failed then [] else get_local_user_teams order u.id g)))
          team_id
        ≡ true
      → MayPass g u gate team_id
  session_of_owner-MayPass g u gate team_id failed h =
      let opened =
        passes-session_of_owner u gate team_id
          (if failed then [] else get_local_user_teams order u.id g) h in
      elim (Bool-cases u.is_superadmin) [
        | inl super ↦ superadmin super
        | inr plain ↦ elim (Bool-cases failed) [
          | inl lost ↦ absurd (ground arith)
          | inr kept ↦
              by_grant (get_local_user_teams-granted team_id u.id (opens gate) g (ground arith))
        ]
      ]

  module _ (digest : String → String) (get_session : String → Query Session) (now : ℕ)
      (faults : Faults) (db : Accounts) (raw : String) (gate : Gate) (team_id : Uuid) where
    on_token-IsAdmitted :
        (found : Option (ApiToken × TokenOwner)) {sess : Session}
        → get_api_token_with_user now (digest raw) db.users db.tokens ≡ found
        → on_token digest get_session order faults db raw found ≡ ok sess
        → passes gate (signed_in sess) team_id ≡ true
        → IsAdmitted get_session now raw (digest raw) db gate team_id sess
    unfolding on_token
    on_token-IsAdmitted none {sess} f e h = by_session (stored_session-found (get_session raw) e)
    on_token-IsAdmitted (some (t, u)) {sess} f e h =
        let rows = if faults.team_lookup then [] else get_local_user_teams order u.id db.groups in
        let s : sess ≡ session_of_owner u rows = ground arith in
        by_token t u (get_api_token_with_user-IsToken now (digest raw) db.users db.tokens f)
          (rw s (unfold session_of_owner in refl))
          (session_of_owner-MayPass db.groups u gate team_id faults.team_lookup (rw s at h))

  -- What a request with a bearer token is let in with, whichever lookups fail: the session that is stored
  -- under the token, or that of an active user with an unexpired API token of that digest; and the latter
  -- passes a team's gate only if the user is a superadmin or in a group that was granted a role in the team
  -- which opens the gate.
  pub team_route-IsAdmitted :
      (digest : String → String) (get_session : String → Query Session) (now : ℕ) (faults : Faults)
      (db : Accounts) (request : Request) (gate : Gate) (team_id : Uuid) {sess : Session}
      → starts_with request.authorization bearer_prefix ≡ true
      → team_route digest get_session order now faults db request ≡ ok sess
      → passes gate (signed_in sess) team_id ≡ true
      → IsAdmitted get_session now
          (bearer_of request.authorization)
          (digest (bearer_of request.authorization))
          db
          gate
          team_id
          sess
  unfolding team_route bearer_or_cookie
  team_route-IsAdmitted digest get_session now faults db request gate team_id {sess} bearer e h =
      let (s, found, calm) =
        >>=-eq-ok (bearer_or_cookie digest get_session order now faults db request) _ e in
      let same : s ≡ sess = calm_session s calm in
      on_token-IsAdmitted digest get_session now faults db (bearer_of request.authorization) gate
        team_id
        (get_api_token_with_user now (digest (bearer_of request.authorization)) db.users db.tokens)
        refl (bearer_found faults.token_lookup (rw bearer at found) ∙ ap ok same) h
