-- ===== src/Agent/Kubescape/Fresh.antt =====
-- When reconcile of kubescape/collector.go reports: it compares with the greatest total that was reported
-- before, however the findings went in between.
use wachd.Base.{
  String, Bool, true, false, ◌&&◌, List, [], ◌∷◌, Option, none, some, if◌then◌else◌, str_eq, ◌≡◌,
  refl, arith, subst, Bool-cases, inl, inr, eq_iff,
}
use wachd.Base.Int.{ℤ, pos, ltb_ℤ}
use text.Mathlib.TextPositions.{eq_refl}
use wachd.Agent.Kubescape.{
  Summary, Counts, is_new, count_of, severity_of, finding_key, total_of, fire, reconcile,
}

abbrev pub is_some {ℓ} : {A : Type ℓ} → Option A → Bool
is_some none = false
is_some (some a) = true

-- A completed scan with findings that reach the threshold.
abbrev pub counts_as : String → String → Summary → Bool
counts_as min_severity kind obj =
    str_eq obj.status "ready"
    && is_some (severity_of min_severity (count_of kind obj.critical) (count_of kind obj.high))

-- The greatest total of a key among the scans that count, and 0 without one. The latest stands first.
unfoldable pub peak : String → String → List (String × Summary) → ℤ
peak min_severity key [] = pos 0
peak min_severity key ((kind, obj) ∷ earlier) =
    let before = peak min_severity key earlier in
    if counts_as min_severity kind obj
      && str_eq (finding_key kind obj) key
      && ltb_ℤ before (total_of kind obj)
    then total_of kind obj
    else before

is_new_self :
    (key : String) (value : ℤ) (counts : Counts)
    → (is_new key value counts).0 key ≡ (if ltb_ℤ (counts key) value then value else counts key)
unfolding is_new
is_new_self key value counts = elim (Bool-cases (ltb_ℤ (counts key) value)) [
  | inl more ↦ rw (more, eq_refl key) refl
  | inr less ↦ rw less refl
]

is_new-at :
    (key other : String) (value : ℤ) (counts : Counts)
    → (is_new key value counts).0 other
      ≡ (if str_eq key other && ltb_ℤ (counts other) value then value else counts other)
unfolding is_new
is_new-at key other value counts = elim (Bool-cases (str_eq key other)) [
  | inl same ↦
      subst
        (λ k.
          (is_new key value counts).0 k
          ≡ (if str_eq key k && ltb_ℤ (counts k) value then value else counts k))
        ((eq_iff key other).0 same) (rw (eq_refl key) (is_new_self key value counts))
  | inr differs ↦ elim (Bool-cases (ltb_ℤ (counts key) value)) [
    | inl more ↦ ground (arith, eq_iff key other, eq_iff other key)
    | inr less ↦ rw (differs, less) refl
  ]
]

module _ (decimal : ℤ → String) (min_severity : String) where
  fire-at :
      (kind : String) (obj : Summary) (s : Option String) (counts : Counts) (key : String)
      → (fire decimal min_severity kind obj s counts).0 key ≡ (
          if is_some s
            && str_eq (finding_key kind obj) key
            && ltb_ℤ (counts key) (total_of kind obj)
          then total_of kind obj
          else counts key)
  unfolding fire
  fire-at kind obj none counts key = refl
  fire-at kind obj (some s) counts key =
      is_new-at (finding_key kind obj) key (total_of kind obj) counts

  -- The map after the scans, the latest of which stands first.
  unfoldable pub after : List (String × Summary) → Counts
  after [] = λ key. pos 0
  after ((kind, obj) ∷ earlier) = (reconcile decimal min_severity kind obj (after earlier)).0

  after-peak :
      (key : String) (scans : List (String × Summary))
      → after scans key ≡ peak min_severity key scans
  unfolding after peak reconcile
  after-peak key [] = refl
  after-peak key ((kind, obj) ∷ earlier) = ground (
    arith,
    after-peak key earlier,
    fire-at kind obj
        (severity_of min_severity (count_of kind obj.critical) (count_of kind obj.high))
        (after earlier) key,
  )

  -- After any scans, the next one is reported exactly if it is completed, has findings that reach the
  -- threshold, and its total exceeds all totals that counted for the same workload before.
  pub reconcile-peak :
      (kind : String) (obj : Summary) (scans : List (String × Summary))
      → is_some (reconcile decimal min_severity kind obj (after scans)).1 ≡ (
          counts_as min_severity kind obj
          && ltb_ℤ (peak min_severity (finding_key kind obj) scans) (total_of kind obj))
  unfolding reconcile fire is_new
  reconcile-peak kind obj scans = rw (← after-peak (finding_key kind obj) scans) (ground arith)
