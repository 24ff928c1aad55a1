-- ===== src/Server/Webhook/Answer.antt =====
-- The answers of the webhook handler, for whole requests.
use wachd.Base.{
  [], ◌∷◌, sym, ◌∙◌, ap, String, true, false, some, any, ok, ◌≡◌, ◌⊎◌, refl, arith, Bool-cases,
  Option-cases, Result-cases, inl, inr, eq_iff, str_eq, ℕ,
}
use wachd.Oncall.Types.{Uuid}
use wachd.Oncall.Manager.{Query}
use wachd.Store.Incidents.{
  Incident, Incidents, matches_fingerprint, update_where, resolved, resolve_by_fingerprint,
}
use wachd.Server.Payload.{Body, parse_webhook_payload}
use wachd.Server.Webhook.{
  on_team, Tables, Run, Team, WebhookRequest, handle_webhook, on_recovered, fingerprint_of,
}
use wachd.Server.Webhook.Recorded.{Promises, on_firing-Promises}

-- The rate limiter lets the request through, its team exists and its secret is the team's.
pub IsAuthentic : (Uuid → Query Team) → WebhookRequest → Type 0
IsAuthentic get_team request =
    (request.allowed ≡ true)
    × ((team_id : Uuid) × (team : Team) × (request.team_id ≡ some team_id)
        × (get_team team_id ≡ ok (some team))
        × (request.secret ≡ team.webhook_secret))

abbrev pub authentic : Uuid → Team → Body → WebhookRequest
authentic team_id team body = record {
  allowed = true;
  team_id = some team_id;
  secret = team.webhook_secret;
  body = some body;
}

resolved_inactive :
    (now : ℕ) (team_id : Uuid) (fingerprint : String) (r : Incident)
    → matches_fingerprint team_id fingerprint (resolved now r) ≡ false
resolved_inactive now team_id fingerprint r = ground arith

any-resolved :
    (now : ℕ) (team_id : Uuid) (fingerprint : String) (rows : Incidents)
    → any
        (matches_fingerprint team_id fingerprint)
        (update_where (matches_fingerprint team_id fingerprint) (resolved now) rows)
      ≡ false
unfolding update_where
any-resolved now team_id fingerprint [] = ground arith
any-resolved now team_id fingerprint (r ∷ rows) =
    elim (Bool-cases (matches_fingerprint team_id fingerprint r)) [
      | inl t ↦
          rw
            (
              t,
              resolved_inactive now team_id fingerprint r,
              any-resolved now team_id fingerprint rows,
            )
            refl
      | inr f ↦ rw (f, any-resolved now team_id fingerprint rows) (ground (arith, f))
    ]

module _ (fold digest : String → String) (uuid_text : Uuid → String) (get_team : Uuid → Query Team)
    (run : Run) where
  secret_shown :
      (request : WebhookRequest) (s : Tables) (team_id : Uuid) (team : Team)
      → (request.secret ≡ team.webhook_secret)
        ⊎ ((on_team fold digest uuid_text run team_id request (ok (some team)) s).0 ≡ s)
  unfolding on_team
  secret_shown request s team_id team =
      elim (Bool-cases (str_eq team.webhook_secret request.secret)) [
        | inl e ↦ inl (sym ((eq_iff _ _).0 e))
        | inr e ↦ inr (rw e refl)
      ]

  -- A request that changes a table or the queue passed the rate limit, names a team that is stored, and
  -- carries that team's webhook secret.
  pub handle_webhook-IsAuthentic :
      (request : WebhookRequest) (s : Tables)
      → IsAuthentic get_team request
        ⊎ ((handle_webhook fold digest uuid_text get_team run request s).0 ≡ s)
  unfolding handle_webhook IsAuthentic
  handle_webhook-IsAuthentic request s = elim (Bool-cases request.allowed) [
    | inr shut ↦ inr (rw shut refl)
    | inl let_in ↦ elim (Option-cases request.team_id) [
      | inl absent ↦ inr (rw (let_in, absent) refl)
      | inr (team_id, named) ↦ elim (Result-cases (get_team team_id)) [
        | inr (failure, e) ↦ inr (rw (let_in, named, e) refl)
        | inl (found, e) ↦ elim (Option-cases found) [
          | inl absent ↦ inr (rw (let_in, named, e, absent) refl)
          | inr (team, is) ↦ elim (secret_shown request s team_id team) [
            | inl shown ↦ inl (let_in, (team_id, team, named, e ∙ ap ok is, shown))
            | inr same ↦ inr (rw (let_in, named, e, is) same)
          ]
        ]
      ]
    ]
  ]

  -- What an authentic request with a firing alert is promised, whatever else happens to the table and
  -- whichever calls fail: an incident id that it is given is that of an active incident of the alert's
  -- fingerprint in the table, and only an accepted alert makes a job.
  pub handle_webhook-Promises :
      (team_id : Uuid) (team : Team) (body : Body) (s : Tables)
      → get_team team_id ≡ ok (some team)
      → (parse_webhook_payload fold body).resolved ≡ false
      → Promises team_id
          (fingerprint_of fold digest uuid_text team_id body (parse_webhook_payload fold body))
          s.jobs
          (handle_webhook fold digest uuid_text get_team run (authentic team_id team body) s)
  unfolding handle_webhook
  handle_webhook-Promises team_id team body s found firing =
      rw (found, (eq_iff team.webhook_secret team.webhook_secret).1 refl, firing)
        (on_firing-Promises run team_id
          (fingerprint_of fold digest uuid_text team_id body (parse_webhook_payload fold body)) s)

  -- After an authentic request with a recovered alert, whose UPDATE does not fail, no incident of the
  -- alert's fingerprint is active.
  pub handle_webhook-resolved :
      (team_id : Uuid) (team : Team) (body : Body) (s : Tables)
      → get_team team_id ≡ ok (some team)
      → (parse_webhook_payload fold body).resolved ≡ true
      → run.faults.resolve ≡ false
      → any
          (matches_fingerprint team_id
            (fingerprint_of fold digest uuid_text team_id body (parse_webhook_payload fold body)))
          (handle_webhook fold digest uuid_text get_team run
            (authentic team_id team body)
            s).0.incidents
        ≡ false
  unfolding handle_webhook on_recovered resolve_by_fingerprint
  handle_webhook-resolved team_id team body s found recovers works =
      rw (found, (eq_iff team.webhook_secret team.webhook_secret).1 refl, recovers, works)
        (any-resolved run.now team_id
          (fingerprint_of fold digest uuid_text team_id body (parse_webhook_payload fold body))
          (run.meanwhile s.incidents))
