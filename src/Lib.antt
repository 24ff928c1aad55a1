-- ===== src/Lib.antt =====
-- Wachd, an on-call system: alerts come in by a webhook, become incidents, and a worker notifies whoever
-- is on call and escalates what stays open.
--
-- The parts and their files:
--
-- + Base: shared names, Boolean tests, lists and integers over the native numbers, and results with
--   errors. An int of Go has 64 bits: wrap64 is its wrap-around.
-- + GoTime: instants, time zones and durations of Go's package time. A zone is given by its wall clock and
--   by the choice of time.Date.
-- + Oncall: internal/oncall/schedule.go and the records of internal/store/models.go it uses. Types has the
--   records, Window the time windows (windowCovers, layerActiveAt, parseHHMM), Layers the sort of a
--   rotation's layers (sortedLayers), Rotation the two rotation formats (resolveWeekly, resolveLayered,
--   ResolveAllLayersAt), Manager the questions asked of them (GetOnCallAt, GetEscalationChain). A JSON
--   column is the record it decodes to, or none. The store's answers (the interface ConfigStore of
--   internal/store/config_store.go) and uuid.Parse are parameters. The rotation interval is a product of
--   float64 values, rounded as Graph.Float says and cut to nanoseconds; out of range it is what amd64 makes of it.
-- + Table: the statements on a list of rows for the graph, and the stable sort.
-- + Store: the tables as lists of rows. Store.Pending has the delayed notifications
--   (internal/store/notification_rules.go). Store.Incidents has the statements of
--   internal/store/incidents.go and of the incident handlers of cmd/server/main.go, and the unique index
--   of internal/store/schema.sql, which an UPDATE asks for each row that it changes.
-- + Worker: cmd/worker/helper.go. Worker.Escalation is checkEscalationForIncident; a call of
--   fireAllChannels is recorded as a notice, and a rotation that panics ends the check before it writes.
--   Worker.Escalation.Race interleaves it, as a step relation, with
--   every other statement on the table.
-- + Worker.Notifications: sendNotifications, fireChannel and firePendingNotifications of
--   cmd/worker/main.go. A call of a notifier is recorded as a send, without its texts. Worker.Memory is what
--   cmd/worker/graph.go and graph_services.go write to the graph; the node of an incident, which passes the
--   sanitiser, is an argument, and so are the statements that fail.
-- + Net: IP addresses. Private has the two address checks (internal/validate/url.go and
--   internal/safehttp/safehttp.go), Dial the dialer of the latter.
-- + Store.Schedules: internal/store/schedules.go. Store.Profile: the statements of
--   internal/store/notification_rules.go and push_tokens.go on a user's rules and tokens.
-- + Server: cmd/server/main.go. Payload and Webhook are handleWebhook with what it reads from an alert,
--   Handlers the incident handlers, ClientIp is webhookClientIP, Overrides the handlers of the overrides,
--   Profile those of a user's own notification rules and push tokens, Timeline the coverage of the coming
--   days. What others do to the table between two statements of the webhook is a parameter, and so is which
--   calls fail.
-- + Graph: the graph of past incidents, internal/graph. Types has its rows (store.go), Rows the methods of
--   PostgresStore (postgres_store.go) with their guards and the constraints of internal/store/schema.sql,
--   Search FindSimilar, Subgraph GetSubgraph, and Calls sequences of the methods that change the tables. Of
--   similarity.go, Score is scoreNodeSimilarity, Properties what it reads of a node's JSON, Tokens the
--   comparison of texts, and Float its float64 arithmetic: a value is a multiple of 2^-1074, and each
--   operation rounds to 53 bits. The Unicode tables of Go are a parameter, and so is the
--   order in which the lookup of a key meets the fields of a map, of its own for each lookup.
-- + Notify: the texts of internal/notify. Text truncates, Sms is the text message and Slack the blocks of the
--   Slack message; the text of a score, which is a float, is given.
-- + License: internal/license/license.go and, in License.Revocation, revocation.go. Decoding and the check
--   of signatures are parameters.
-- + Login: authenticateLocal of internal/auth/handler.go with its statements of
--   internal/store/local_users.go; the password check is a parameter. The end of a lock
--   wraps around as the int64 of a time.Duration does.
-- + Password: the two password policies (ValidatePolicy of internal/auth/password.go, validateDefaultPolicy of
--   cmd/server/main.go) and generateAdminPassword. The tables of package unicode and the random numbers are
--   parameters.
-- + Accounts: the handlers that create, change and remove local accounts and their passwords
--   (internal/auth/admin_handler.go, HandleChangePassword), on the table Store.Accounts
--   (internal/store/local_users.go), and bootstrapAdmin. bcrypt is a parameter.
-- + Access: internal/auth. Access has the session and the checks of the middlewares, Access.Groups the local
--   groups a local user's teams come from, Access.Tokens the API tokens (BearerOrCookie), Access.Sso
--   SyncTeamAccess and the sign-in of HandleCallback, Access.Seeds bootstrapGroupMappings of
--   cmd/server/main.go. The session store and the hash of a token are parameters.
-- + Agent: cmd/agent. Agent.Health is what collectors/k8shealth does with a pod, a node and the
--   pending pods, Agent.Kubescape the reconcile of collectors/kubescape with the state of
--   state.go. What the cluster reports is an argument, and a report to the server is recorded as an event.
-- + Examples: the theorems at concrete inputs, and tests.
--
-- Numbers are natural numbers unless Go's code can reach a negative one, and then they are integers.
-- Every loop of the program that is modelled runs over a list, so it is structural recursion, and so is
-- the shuffle of a password, which counts down, and the recursive query of the graph, which counts its depth
-- down. Three functions have fuel: the printing of a number 20 digits, which an int of 64 bits does not
-- exceed, the rounding of a float 2100 steps, more than the largest float64 has bits in units of 2^-1074,
-- and the loop over the numbered environment variables, where any fuel above a variable that is not set is
-- enough.
--
-- Not modelled: the web interface, the handlers' HTTP and JSON, the handlers that only list or store a row of
-- configuration, the SQL engine beyond the statements named above, the Redis queue and sessions, the AI
-- backends, the collection of context and its correlation, the regular expressions of the sanitiser, the
-- watch loops of the agent, and the calls of the notification services. They are calls of other programs or
-- libraries, or one statement each.
pub mod Access
pub mod Accounts
pub mod Agent
pub mod Base
pub mod Examples
pub mod GoTime
pub mod Graph
pub mod License
pub mod Login
pub mod Net
pub mod Notify
pub mod Oncall
pub mod Password
pub mod Server
pub mod Store
pub mod Table
pub mod Worker
