-- ===== src/Access/Seeds/Mapped.antt =====
-- What the bootstrap leaves in the tables.
use wachd.Base.{
  All, if◌then◌else◌, ==_iff, subst, ◌==◌, ℕ, zero, suc, ◌≡◌, ◌<◌, ◌≤◌, Bool, true, false, List, [],
  ◌∷◌, Option, none, some, Result, err, ok, Result-cases, Bool-cases, inl, inr, arith, str_eq,
}
use wachd.Oncall.Types.{Uuid}
use wachd.Access.Seeds.{
  Setting, SeedFaults, SeedError, Seeded, seed, seed_from, bootstrap_group_mappings,
}
use wachd.Access.Seeds.Rows.{IsMapped, IsIn, IsSeeded, seed-IsSeeded}
use wachd.Access.Seeds.Ends.{seeds_end}

IsMapped-Grows :
    (v : Setting) (s next : Seeded)
    → IsIn s.teams next.teams
    → IsIn s.mappings next.mappings
    → IsMapped v s
    → IsMapped v next
IsMapped-Grows v s next teams mappings m = (m.0, teams _ m.1, mappings _ m.2)

-- An outcome with no error has a mapping for each of the variables.
abbrev pub AllMapped : List Setting → Result SeedError Seeded → Type 0
AllMapped variables (err e) = Unit
AllMapped variables (ok final) = All (λ v. IsMapped v final) variables

clash : {b : Bool} → b ≡ true → b ≡ false → ⊥
clash h k = cc

module _ (faults : ℕ → SeedFaults) (fresh : ℕ → Uuid) (env : ℕ → Setting) where
  -- The variables from i to k give group ids.
  abbrev AreGiven : ℕ → ℕ → Type 0
  AreGiven i k = (j : ℕ) → i ≤ j → j ≤ k → str_eq (env j).group_id "" ≡ false

  IsComplete : ℕ → Seeded → Option (Result SeedError Seeded) → Type 0
  IsComplete i s none = Unit
  IsComplete i s (some (err e)) = Unit
  IsComplete i s (some (ok final)) =
      IsIn s.teams final.teams
      × IsIn s.mappings final.mappings
      × ((k : ℕ)
          → i ≤ k
          → AreGiven i k
          → str_eq (env k).team_name "" ≡ false
          → IsMapped (env k) final)

  step-IsComplete :
      (i : ℕ) (s next : Seeded) (o : Option (Result SeedError Seeded))
      → IsSeeded (env i) s (ok next)
      → IsComplete (suc i) next o
      → IsComplete i s o
  unfolding IsSeeded IsComplete
  step-IsComplete i s next none seeded rest = tt
  step-IsComplete i s next (some (err e)) seeded rest = tt
  step-IsComplete i s next (some (ok final)) seeded rest = (
    λ p h. rest.0 p (seeded.0 p h),
    λ p h. rest.1 p (seeded.1 p h),
    λ k le set named. elim (Bool-cases (i == k)) [
      | inl b ↦ IsMapped-Grows (env k) next final rest.0 rest.1 (
          subst (λ j. str_eq (env j).team_name "" ≡ false → IsMapped (env j) next)
            ((==_iff i k).0 b) seeded.2 named)
      | inr b ↦ rest.2 k (ground arith) (λ j a c. set j (omega arith) c) named
    ],
  )

  seed_from-IsComplete :
      (fuel i : ℕ) (s : Seeded) → IsComplete i s (seed_from faults fresh env fuel i s)
  unfolding seed_from IsComplete
  seed_from-IsComplete zero i s = tt
  seed_from-IsComplete (suc fuel) i s = elim (Bool-cases (str_eq (env i).group_id "")) [
    | inl b ↦
        rw b (λ p h. h, λ p h. h, λ k le set named. elim (clash b (set i (omega arith) le)) [ ])
    | inr b ↦ rw b (elim (Result-cases (seed (faults i) (fresh i) (env i) s)) [
      | inr (e, f) ↦ rw f tt
      | inl (next, f) ↦ rw f (
          step-IsComplete i s next _
            (subst (IsSeeded (env i) s) f (seed-IsSeeded (faults i) (fresh i) (env i) s))
            (seed_from-IsComplete fuel (suc i) next))
    ])
  ]

  -- The variables from i on, up to the first gap and at most so many, that name a team.
  abbrev pub given : ℕ → ℕ → List Setting
  given zero i = []
  given (suc left) i =
      let rest = given left (suc i) in
      if str_eq (env i).group_id ""
      then []
      else if str_eq (env i).team_name ""
      then rest
      else env i ∷ rest

  All-given :
      (P : Setting → Type 0) (left i : ℕ)
      → ((k : ℕ) → i ≤ k → AreGiven i k → str_eq (env k).team_name "" ≡ false → P (env k))
      → All P (given left i)
  All-given P zero i f = tt
  All-given P (suc left) i f = elim (Bool-cases (str_eq (env i).group_id "")) [
    | inl b ↦ rw b tt
    | inr b ↦ rw b (elim (Bool-cases (str_eq (env i).team_name "")) [
      | inl c ↦ rw c (All-given P left (suc i) (later b))
      | inr c ↦ rw c (f i (omega arith) (only b) c, All-given P left (suc i) (later b))
    ])
  ]
    where
      at : (j : ℕ) → str_eq (env i).group_id "" ≡ false → i ≡ j → str_eq (env j).group_id "" ≡ false
      at j b e = subst (λ x. str_eq (env x).group_id "" ≡ false) e b

      only : str_eq (env i).group_id "" ≡ false → AreGiven i i
      only b j le ge = at j b (omega arith)

      later :
          str_eq (env i).group_id "" ≡ false
          → (k : ℕ) → suc i ≤ k
          → AreGiven (suc i) k
          → str_eq (env k).team_name "" ≡ false
          → P (env k)
      later b k le set named =
          f k (omega arith)
            (λ j low high. elim (Bool-cases (i == j)) [
              | inl e ↦ at j b ((==_iff i j).0 e)
              | inr e ↦ set j (ground arith) high
            ])
            named

  complete-AllMapped :
      (n : ℕ) (s : Seeded) (outcome : Result SeedError Seeded)
      → IsComplete 0 s (some outcome)
      → AllMapped (given n 0) outcome
  unfolding IsComplete
  complete-AllMapped n s (err e) c = tt
  complete-AllMapped n s (ok final) c = All-given (λ v. IsMapped v final) n 0 c.2

  -- If some variable GROUP_MAPPING_n_GROUP_ID is not set, the bootstrap ends: one outcome is what every fuel
  -- above n gives. If no statement failed, then each group of a variable before the first gap that names a
  -- team has a mapping to a team of that name.
  pub bootstrap_group_mappings_ends :
      (n : ℕ) (s : Seeded)
      → str_eq (env n).group_id "" ≡ true
      → (outcome : Result SeedError Seeded) × ((fuel : ℕ)
          → n < fuel
          → bootstrap_group_mappings faults fresh env fuel s ≡ some outcome)
        × AllMapped (given n 0) outcome
  unfolding bootstrap_group_mappings
  bootstrap_group_mappings_ends n s gap =
      let ended = seeds_end faults fresh env n s gap in
      (
        ended.0,
        ended.1,
        complete-AllMapped n s ended.0 (
            subst (IsComplete 0 s) (ended.1 (suc n) (omega arith))
              (seed_from-IsComplete (suc n) 0 s)),
      )
