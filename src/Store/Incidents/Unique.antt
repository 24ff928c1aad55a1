-- ===== src/Store/Incidents/Unique.antt =====
-- What the unique index of the incidents table is for: one active incident per team and fingerprint.
use wachd.Base.{
  Option-cases, sym, ap, ◌&&◌, ◌||◌, ◌==◌, subst, ℕ, ◌+◌, ◌≤◌, String, Bool, true, false, [], ◌∷◌,
  ◌++◌, any, if◌then◌else◌, str_eq, ◌≡◌, refl, arith, Bool-cases, inl, inr, eq_iff, ok,
}
use wachd.Oncall.Types.{Uuid}
use wachd.Store.Incidents.{
  same_text, Incident, Incidents, update_where, count_where, is_twin, is_active, has_unique_index,
  meets_twin, update_indexed, new_row, create_incident,
}

-- An incident of the team with this fingerprint that is open, acknowledged or snoozed.
abbrev pub has_case : Uuid → String → Incident → Bool
has_case team_id fingerprint r =
    r.team_id == team_id
    && same_text r.fingerprint fingerprint
    && (str_eq r.status "open" || str_eq r.status "acknowledged" || str_eq r.status "snoozed")

-- No fingerprint of a team has two incidents that are open, acknowledged or snoozed.
pub AtMostOne : Incidents → Type 0
AtMostOne rows =
    (team_id : Uuid) (fingerprint : String) → count_where (has_case team_id fingerprint) rows ≤ 1

twin-matches :
    (team_id : Uuid) (fingerprint : String) (new r : Incident)
    → has_case team_id fingerprint new ≡ true
    → is_twin new r ≡ has_case team_id fingerprint r
twin-matches team_id fingerprint new r m = elim (Option-cases new.fingerprint) [
  | inl absent ↦ absurd (ground (arith, absent))
  | inr (f, given) ↦
      let active : is_active new ≡ true = ground arith in
      let same_team : new.team_id ≡ team_id = ground arith in
      let same : str_eq f fingerprint ≡ true = ground (arith, given) in
      rw (given, active, same_team, (eq_iff f fingerprint).0 same) refl
]

no_twin-count :
    (team_id : Uuid) (fingerprint : String) (new : Incident) (rows : Incidents)
    → has_case team_id fingerprint new ≡ true
    → any (is_twin new) rows ≡ false
    → count_where (has_case team_id fingerprint) rows ≡ 0
unfolding count_where
no_twin-count team_id fingerprint new [] m free = refl
no_twin-count team_id fingerprint new (r ∷ rows) m free =
    ground (
      arith,
      twin-matches team_id fingerprint new r m,
      no_twin-count team_id fingerprint new rows m,
    )

pub has_unique_index-AtMostOne : (rows : Incidents) → has_unique_index rows ≡ true → AtMostOne rows
unfolding has_unique_index AtMostOne count_where
has_unique_index-AtMostOne [] u team_id fingerprint = omega arith
has_unique_index-AtMostOne (r ∷ rows) u team_id fingerprint =
    elim (Bool-cases (has_case team_id fingerprint r)) [
      | inl m ↦ rw m (ground (arith, no_twin-count team_id fingerprint r rows m))
      | inr n ↦ rw n (has_unique_index-AtMostOne rows (ground arith) team_id fingerprint)
    ]

count-update_where :
    (test : Incident → Bool) (change : Incident → Incident) (team_id : Uuid) (fingerprint : String)
    (rows : Incidents)
    → ((r : Incident)
        → has_case team_id fingerprint (change r) ≡ true
        → has_case team_id fingerprint r ≡ true)
    → count_where (has_case team_id fingerprint) (update_where test change rows)
      ≤ count_where (has_case team_id fingerprint) rows
unfolding update_where count_where
count-update_where test change team_id fingerprint [] keeps = omega arith
count-update_where test change team_id fingerprint (r ∷ rows) keeps = elim (Bool-cases (test r)) [
  | inl t ↦
      rw t (ground (arith, keeps r, count-update_where test change team_id fingerprint rows keeps))
  | inr f ↦ rw f (ground (arith, count-update_where test change team_id fingerprint rows keeps))
]

count-append :
    (test : Incident → Bool) (rows : Incidents) (r : Incident)
    → count_where test (rows ++ r ∷ []) ≡ count_where test rows + (if test r then 1 else 0)
unfolding count_where
count-append test [] r = ground arith
count-append test (x ∷ rows) r = ground (arith, count-append test rows r)

-- An update that makes no row active, and leaves the fingerprints alone.
pub update_where-AtMostOne :
    (test : Incident → Bool) (change : Incident → Incident) (rows : Incidents)
    → ((team_id : Uuid) (fingerprint : String) (r : Incident)
        → has_case team_id fingerprint (change r) ≡ true
        → has_case team_id fingerprint r ≡ true)
    → AtMostOne rows
    → AtMostOne (update_where test change rows)
unfolding AtMostOne
update_where-AtMostOne test change rows keeps one team_id fingerprint =
    let fewer =
      count-update_where test change team_id fingerprint rows (keeps team_id fingerprint) in
    let old = one team_id fingerprint in omega arith

count-++ :
    (test : Incident → Bool) (xs ys : Incidents)
    → count_where test (xs ++ ys) ≡ count_where test xs + count_where test ys
unfolding count_where
count-++ test [] ys = omega arith
count-++ test (x ∷ xs) ys = ground (arith, count-++ test xs ys)

count_cons_hit :
    (test : Incident → Bool) (x : Incident) (xs : Incidents)
    → test x ≡ true
    → count_where test (x ∷ xs) ≡ 1 + count_where test xs
unfolding count_where
count_cons_hit test x xs h = ground (arith, h)

count_cons_miss :
    (test : Incident → Bool) (x : Incident) (xs : Incidents)
    → test x ≡ false
    → count_where test (x ∷ xs) ≡ count_where test xs
unfolding count_where
count_cons_miss test x xs h = ground (arith, h)

count_cons :
    (test : Incident → Bool) (x : Incident) (xs : Incidents)
    → count_where test xs ≤ count_where test (x ∷ xs)
unfolding count_where
count_cons test x xs = elim (Bool-cases (test x)) [
  | inl h ↦ rw h (omega arith)
  | inr h ↦ rw h (omega arith)
]

-- A row in the middle gives way to one that has no twin among the others.
replaced-AtMostOne :
    (before : Incidents) (r new : Incident) (rows : Incidents)
    → AtMostOne (before ++ r ∷ rows)
    → any (is_twin new) (before ++ rows) ≡ false
    → AtMostOne (before ++ new ∷ rows)
unfolding AtMostOne
replaced-AtMostOne before r new rows one free team_id fingerprint =
    let p = has_case team_id fingerprint in
    let old = one team_id fingerprint in
    let e1 = count-++ p before (r ∷ rows) in
    let e2 = count_cons p r rows in
    let e3 = count-++ p before (new ∷ rows) in
    let e5 = count-++ p before rows in
    elim (Bool-cases (p new)) [
      | inl m ↦
          let none_other = no_twin-count team_id fingerprint new (before ++ rows) m free in
          let e6 = count_cons_hit p new rows m in omega (arith, e3, e5, e6, none_other)
      | inr n ↦ let e6 = count_cons_miss p new rows n in omega (arith, old, e1, e2, e3, e6)
    ]

one_by_one-AtMostOne :
    (test : Incident → Bool) (change : Incident → Incident) (before rows : Incidents)
    → AtMostOne (before ++ rows)
    → meets_twin test change before rows ≡ false
    → AtMostOne (before ++ update_where test change rows)
unfolding meets_twin update_where
one_by_one-AtMostOne test change before [] one free = one
one_by_one-AtMostOne test change before (r ∷ rows) one free = elim (Bool-cases (test r)) [
  | inl t ↦
      let split = rw t at free in
      rw t (
        subst AtMostOne (append_one before (change r) (update_where test change rows)) (
          one_by_one-AtMostOne test change (before ++ change r ∷ []) rows
            (subst AtMostOne (sym (append_one before (change r) rows))
              (replaced-AtMostOne before r (change r) rows one (ground arith)))
            (ground arith)))
  | inr f ↦
      let split = rw f at free in
      rw f (
        subst AtMostOne (append_one before r (update_where test change rows)) (
          one_by_one-AtMostOne test change (before ++ r ∷ []) rows
            (subst AtMostOne (sym (append_one before r rows)) one) (ground arith)))
]
  where
    append_one :
        (xs : Incidents) (y : Incident) (ys : Incidents) → (xs ++ y ∷ []) ++ ys ≡ xs ++ y ∷ ys
    append_one [] y ys = refl
    append_one (x ∷ xs) y ys = ap (λ l. x ∷ l) (append_one xs y ys)

-- An UPDATE that the index lets pass keeps the table as it should be.
pub update_indexed-AtMostOne :
    (test : Incident → Bool) (change : Incident → Incident) (rows : Incidents) {kept : Incidents}
    → update_indexed test change rows ≡ ok kept
    → AtMostOne rows
    → AtMostOne kept
update_indexed-AtMostOne test change rows {kept} e one =
    elim (Bool-cases (meets_twin test change [] rows)) [
      | inl u ↦ absurd (ground (arith, u))
      | inr v ↦
          let same : update_where test change rows ≡ kept = ground (arith, v) in
          subst AtMostOne same (one_by_one-AtMostOne test change [] rows one v)
    ]

pub create_incident-AtMostOne :
    (now : ℕ) (id : Uuid) (given : Incident) (rows : Incidents) {kept : Incidents}
    → create_incident now id given rows ≡ ok kept
    → AtMostOne rows
    → AtMostOne kept
unfolding create_incident AtMostOne
create_incident-AtMostOne now id given rows {kept} e one team_id fingerprint =
    let old = one team_id fingerprint in
    let free : any (is_twin (new_row now id given)) rows ≡ false = ground arith in
    let same : rows ++ new_row now id given ∷ [] ≡ kept = ground arith in
    let more = count-append (has_case team_id fingerprint) rows (new_row now id given) in
    elim (Bool-cases (has_case team_id fingerprint (new_row now id given))) [
      | inl m ↦
          let zero_before = no_twin-count team_id fingerprint (new_row now id given) rows m free in
          subst (λ k. count_where (has_case team_id fingerprint) k ≤ 1) same (ground arith)
      | inr n ↦ subst (λ k. count_where (has_case team_id fingerprint) k ≤ 1) same (ground arith)
    ]
