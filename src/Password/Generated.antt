-- ===== src/Password/Generated.antt =====
-- The password of the first admin: it meets the default policy, whatever is drawn.
pub mod Swaps
use wachd.Base.{
  ℕ, zero, suc, ◌+◌, ◌<◌, ◌≤◌, Bool, true, List, [], ◌∷◌, any, all, length, get_elem?,
  get_elem?_total, Option, none, some, Result, ok, err, ◌>>=◌, ◌≡◌, refl, ap, subst, sym, arith,
  ◌∙◌, ◌⊎◌, inl, inr, ◌==◌, Bool-cases, ◌≢◌, ==_iff,
}
use wachd.Password.{
  Random, RandFailure, rand_failed, index, pick, picks, charsets, assign, swap, shuffle,
  generate_admin_password, validate_default_policy, default_missing, default_class, byte_len, scan,
  Class, upper, lower, digit, special, none_seen, upper_charset, lower_charset, digit_charset,
  special_charset, index_out_of_range, draw,
}
use wachd.Password.Accepted.{same, seen, scan-any}
use wachd.Password.Generated.Swaps.{
  InRange, Drawn, >>=-Drawn, Drawn-mono, index-Drawn, Keeps, swapped-Keeps, Keeps-trans,
}

module _ (rand : Random) (fair : InRange rand) where
  draw-Drawn : (k n : ℕ) → Drawn rand (λ i. i < n) (draw rand k n)
  unfolding draw
  draw-Drawn k n = go (rand k n) refl
    where
      go :
          (o : Option ℕ)
          → rand k n ≡ o
          → Drawn rand (λ i. i < n) (elim o [ none ↦ err rand_failed | some i ↦ ok i ])
      go none e = (k, n, e)
      go (some i) e = fair k n i e

  swap-Drawn :
      (i j : ℕ) (buf : List ℕ)
      → i < length buf
      → j < length buf
      → Drawn rand (Keeps buf) (swap i j buf)
  unfolding swap
  swap-Drawn i j buf hi hj = >>=-Drawn rand _ (index buf j) _ (index-Drawn rand buf j hj) (λ b ej.
      >>=-Drawn rand _ (index buf i) _ (index-Drawn rand buf i hi)
        (λ a ei. swapped-Keeps i j a b buf hi hj ei ej))

  shuffle-Drawn :
      (k i : ℕ) (buf : List ℕ) → i < length buf → Drawn rand (Keeps buf) (shuffle rand k i buf)
  unfolding shuffle
  shuffle-Drawn k zero buf h = (refl, λ p found. found)
  shuffle-Drawn k (suc i) buf h =
      >>=-Drawn rand _ (draw rand k (suc i + 1)) _ (draw-Drawn k (suc i + 1)) (λ j hj.
        >>=-Drawn rand _ (swap (suc i) j buf) _ (swap-Drawn (suc i) j buf h (omega arith))
          (λ w keep.
            Drawn-mono rand (Keeps w) (Keeps buf) (shuffle rand (k + 1) i w)
              (λ w'. Keeps-trans buf w w' keep)
              (shuffle-Drawn (k + 1) i w (omega (arith, keep.0)))))

  -- One byte of each set.
  abbrev From : List (List ℕ) → List ℕ → Type 0
  From [] [] = Unit
  From [] (b ∷ bs) = ⊥
  From (c ∷ cs) [] = ⊥
  From (c ∷ cs) (b ∷ bs) = ((p : ℕ → Bool) → all p c ≡ true → p b ≡ true) × From cs bs

  all_at :
      (p : ℕ → Bool) (w : List ℕ) (i a : ℕ) → get_elem? w i ≡ some a → all p w ≡ true → p a ≡ true
  all_at p [] i a e h = cc
  all_at p (x ∷ w) zero a e h = ground arith
  all_at p (x ∷ w) (suc i) a e h = all_at p w i a e (ground arith)

  picks-Drawn : (k : ℕ) (sets : List (List ℕ)) → Drawn rand (From sets) (picks rand k sets)
  unfolding picks pick
  picks-Drawn k [] = tt
  picks-Drawn k (c ∷ cs) = >>=-Drawn rand _ (pick rand k c) _ picked (λ b from.
      >>=-Drawn rand _ (picks rand (k + 1) cs) _ (picks-Drawn (k + 1) cs)
        (λ bs froms. (from, froms)))
    where
      picked : Drawn rand (λ b. (p : ℕ → Bool) → all p c ≡ true → p b ≡ true) (pick rand k c)
      picked = >>=-Drawn rand _ (draw rand k (length c)) _ (draw-Drawn k (length c)) (λ i hi.
          Drawn-mono rand _ _ (index c i) (λ b e p. all_at p c i b e) (index-Drawn rand c i hi))

  From-length : (sets : List (List ℕ)) (w : List ℕ) → From sets w → length w ≡ length sets
  From-length [] [] from = refl
  From-length [] (b ∷ bs) from = absurd from
  From-length (c ∷ cs) [] from = absurd from
  From-length (c ∷ cs) (b ∷ bs) from = ap suc (From-length cs bs from.1)

  From-any :
      (sets : List (List ℕ)) (w : List ℕ) (i : ℕ) (c : List ℕ) (p : ℕ → Bool)
      → From sets w
      → get_elem? sets i ≡ some c
      → all p c ≡ true
      → any p w ≡ true
  From-any [] w i c p from e h = cc
  From-any (c' ∷ cs) [] i c p from e h = absurd from
  From-any (c' ∷ cs) (b ∷ bs) zero c p from e h =
      let eq : c' ≡ c = ground arith in
      let hit : p b ≡ true = from.0 p (subst (λ c. all p c ≡ true) (sym eq) h) in ground arith
  From-any (c' ∷ cs) (b ∷ bs) (suc i) c p from e h = ground (arith, From-any cs bs i c p from.1 e h)

  abbrev in_class : Class → ℕ → Bool
  in_class k b = same k (default_class b)

  length-byte_len : (w : List ℕ) → length w ≤ byte_len w
  unfolding byte_len
  length-byte_len [] = omega arith
  length-byte_len (b ∷ bs) = ground (arith, length-byte_len bs)

  seen_class :
      (k : Class) (w : List ℕ)
      → any (in_class k) w ≡ true
      → seen k (scan default_class w none_seen) ≡ true
  seen_class k w found = ground (arith, scan-any default_class k w none_seen)

  kept_class :
      (k : Class) (i : ℕ) (c : List ℕ) (buf w : List ℕ)
      → From charsets buf
      → Keeps buf w
      → get_elem? charsets i ≡ some c
      → all (in_class k) c ≡ true
      → seen k (scan default_class w none_seen) ≡ true
  kept_class k i c buf w from keep e h =
      seen_class k w (keep.1 (in_class k) (From-any charsets buf i c (in_class k) from e h))

  kept-IsAccepted :
      (buf w : List ℕ)
      → From charsets buf
      → Keeps buf w
      → (length w ≡ 16) × (validate_default_policy w ≡ none)
  unfolding validate_default_policy default_missing
  kept-IsAccepted buf w from keep =
      let long : length w ≡ 16 = keep.0 ∙ From-length charsets buf from in
      let has_upper = kept_class upper 0 upper_charset buf w from keep refl refl in
      let has_lower = kept_class lower 1 lower_charset buf w from keep refl refl in
      let has_digit = kept_class digit 2 digit_charset buf w from keep refl refl in
      let has_special = kept_class special 3 special_charset buf w from keep refl refl in
      (long, ground (arith, length-byte_len w))

  -- If every draw lies in the range asked for, the generated password has 16 bytes and meets the default
  -- policy, or else a draw failed and this is the error; no index is ever out of range.
  pub generate_admin_password-IsAccepted :
      Drawn rand
        (λ w. (length w ≡ 16) × (validate_default_policy w ≡ none))
        (generate_admin_password rand)
  unfolding generate_admin_password
  generate_admin_password-IsAccepted =
      >>=-Drawn rand _ (picks rand 0 charsets) _ (picks-Drawn 0 charsets) (λ buf from.
        Drawn-mono rand (Keeps buf) _ (shuffle rand 16 15 buf) (λ w. kept-IsAccepted buf w from)
          (shuffle-Drawn 16 15 buf (omega (arith, From-length charsets buf from))))
