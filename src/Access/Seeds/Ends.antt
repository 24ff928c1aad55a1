-- ===== src/Access/Seeds/Ends.antt =====
-- The loop over the numbered variables ends, and seeds each of them.
use wachd.Base.{
  subst, ◌∙◌, ℕ, zero, suc, ◌≡◌, ◌<◌, ◌≤◌, ◌+◌, refl, true, false, some, Result, err, ok,
  Result-cases, Bool-cases, inl, inr, arith, str_eq,
}
use wachd.Oncall.Types.{Uuid}
use wachd.Access.Seeds.{Setting, SeedFaults, SeedError, Seeded, seed, seed_from}

nothing_below : {n : ℕ} → n < 0 → ⊥
nothing_below h = omega arith

module _ (faults : ℕ → SeedFaults) (fresh : ℕ → Uuid) (env : ℕ → Setting) where
  -- The three ways of an iteration.
  stops :
      (fuel i : ℕ) (s : Seeded)
      → str_eq (env i).group_id "" ≡ true
      → seed_from faults fresh env (suc fuel) i s ≡ some (ok s)
  unfolding seed_from
  stops fuel i s gap = rw gap refl

  fails :
      (fuel i : ℕ) (s : Seeded) {e : SeedError}
      → str_eq (env i).group_id "" ≡ false
      → seed (faults i) (fresh i) (env i) s ≡ err e
      → seed_from faults fresh env (suc fuel) i s ≡ some (err e)
  unfolding seed_from
  fails fuel i s set f = rw (set, f) refl

  goes_on :
      (fuel i : ℕ) (s : Seeded) {next : Seeded}
      → str_eq (env i).group_id "" ≡ false
      → seed (faults i) (fresh i) (env i) s ≡ ok next
      → seed_from faults fresh env (suc fuel) i s ≡ seed_from faults fresh env fuel (suc i) next
  unfolding seed_from
  goes_on fuel i s set f = rw (set, f) refl

  HasOutcome : ℕ → ℕ → Seeded → Result SeedError Seeded → Type 0
  HasOutcome left i s outcome =
      (fuel : ℕ) → left ≤ fuel → seed_from faults fresh env (suc fuel) i s ≡ some outcome

  seed_from_ends :
      (left i : ℕ) (s : Seeded)
      → str_eq (env (i + left)).group_id "" ≡ true
      → (outcome : Result SeedError Seeded) × HasOutcome left i s outcome
  unfolding HasOutcome
  seed_from_ends zero i s gap = (
    ok s,
    λ fuel h. stops fuel i s (subst (λ j. str_eq (env j).group_id "" ≡ true) (omega arith) gap),
  )
  seed_from_ends (suc left) i s gap = elim (Bool-cases (str_eq (env i).group_id "")) [
    | inl b ↦ (ok s, λ fuel h. stops fuel i s b)
    | inr b ↦ elim (Result-cases (seed (faults i) (fresh i) (env i) s)) [
      | inr (e, f) ↦ (err e, λ fuel h. fails fuel i s b f)
      | inl (next, f) ↦
          let rest =
            seed_from_ends left (suc i) next
              (subst (λ j. str_eq (env j).group_id "" ≡ true) (omega arith) gap) in
          (rest.0, further left i s b f rest.1)
    ]
  ]
    where
      further :
          (left i : ℕ) (s : Seeded) {next : Seeded} {outcome : Result SeedError Seeded}
          → str_eq (env i).group_id "" ≡ false
          → seed (faults i) (fresh i) (env i) s ≡ ok next
          → HasOutcome left (suc i) next outcome
          → HasOutcome (suc left) i s outcome
      further left i s b f rest zero h = elim (nothing_below h) [ ]
      further left i s b f rest (suc fuel) h = goes_on (suc fuel) i s b f ∙ rest fuel (omega arith)

  -- One outcome, from whatever fuel reaches the gap.
  pub seeds_end :
      (n : ℕ) (s : Seeded)
      → str_eq (env n).group_id "" ≡ true
      → (outcome : Result SeedError Seeded) × ((fuel : ℕ)
          → n < fuel
          → seed_from faults fresh env fuel 0 s ≡ some outcome)
  unfolding HasOutcome
  seeds_end n s gap =
      let ended =
        seed_from_ends n 0 s (subst (λ j. str_eq (env j).group_id "" ≡ true) (omega arith) gap) in
      (ended.0, each ended.1)
    where
      each :
          {outcome : Result SeedError Seeded}
          → HasOutcome n 0 s outcome
          → (fuel : ℕ) → n < fuel
          → seed_from faults fresh env fuel 0 s ≡ some outcome
      each has zero h = elim (nothing_below h) [ ]
      each has (suc fuel) h = has fuel (omega arith)
