-- ===== src/Password/Generated/Swaps.antt =====
-- Results of draws, and what the swaps of a shuffle keep.
use wachd.Base.{
  ℕ, zero, suc, ◌<◌, Bool, true, List, [], ◌∷◌, any, length, get_elem?, get_elem?_total, none, some,
  Result, ok, err, ◌>>=◌, ◌≡◌, refl, ap, subst, sym, arith, ◌∙◌, ◌⊎◌, inl, inr, ◌==◌, Bool-cases,
  ◌≢◌, ==_iff,
}
use wachd.Password.{Random, RandFailure, rand_failed, index, assign, index_out_of_range}

-- rand.Int draws from [0, max).
abbrev pub InRange : Random → Type 0
InRange rand = (k n i : ℕ) → rand k n ≡ some i → i < n

-- A result with the property, or the error of a draw that failed; never an index out of range.
abbrev pub Drawn : {A : Type 0} → Random → (A → Type 0) → Result RandFailure A → Type 0
Drawn rand P (ok a) = P a
Drawn rand P (err rand_failed) = (k : ℕ) × (n : ℕ) × (rand k n ≡ none)
Drawn rand P (err index_out_of_range) = ⊥

pub >>=-Drawn :
    (rand : Random) {A B : Type 0} {P : A → Type 0} (Q : B → Type 0) (r : Result RandFailure A)
    (rest : A → Result RandFailure B)
    → Drawn rand P r
    → ((a : A) → P a → Drawn rand Q (rest a))
    → Drawn rand Q (r >>= rest)
>>=-Drawn rand Q (ok a) rest p next = next a p
>>=-Drawn rand Q (err rand_failed) rest p next = p
>>=-Drawn rand Q (err index_out_of_range) rest p next = p

pub Drawn-mono :
    (rand : Random) {A : Type 0} (P Q : A → Type 0) (r : Result RandFailure A)
    → ((a : A) → P a → Q a)
    → Drawn rand P r
    → Drawn rand Q r
Drawn-mono rand P Q (ok a) weaken p = weaken a p
Drawn-mono rand P Q (err rand_failed) weaken p = p
Drawn-mono rand P Q (err index_out_of_range) weaken p = p

pub index-Drawn :
    (rand : Random) (buf : List ℕ) (i : ℕ)
    → i < length buf
    → Drawn rand (λ b. get_elem? buf i ≡ some b) (index buf i)
unfolding index
index-Drawn rand buf i h =
    let (b, e) = get_elem?_total buf i h in
    subst
      (λ o. Drawn rand (λ b. o ≡ some b) (elim o [ none ↦ err index_out_of_range | some b ↦ ok b ]))
      (sym e) refl

length-assign : (i b : ℕ) (buf : List ℕ) → length (assign i b buf) ≡ length buf
unfolding assign
length-assign i b [] = refl
length-assign zero b (c ∷ cs) = refl
length-assign (suc i) b (c ∷ cs) = omega (arith, length-assign i b cs)

assign_same : (i b : ℕ) (buf : List ℕ) → i < length buf → get_elem? (assign i b buf) i ≡ some b
unfolding assign
assign_same i b [] h = absurd (omega arith)
assign_same zero b (c ∷ cs) h = refl
assign_same (suc i) b (c ∷ cs) h = assign_same i b cs (omega arith)

assign_other : (i k b : ℕ) (buf : List ℕ) → i ≢ k → get_elem? (assign i b buf) k ≡ get_elem? buf k
unfolding assign
assign_other i k b [] h = refl
assign_other zero zero b (c ∷ cs) h = absurd (h refl)
assign_other zero (suc k) b (c ∷ cs) h = refl
assign_other (suc i) zero b (c ∷ cs) h = refl
assign_other (suc i) (suc k) b (c ∷ cs) h = assign_other i k b cs (λ e. h (ap suc e))

-- Nothing that a test finds is lost, and no byte is added.
abbrev pub Keeps : List ℕ → List ℕ → Type 0
Keeps buf w = (length w ≡ length buf) × ((p : ℕ → Bool) → any p buf ≡ true → any p w ≡ true)

any_at :
    (p : ℕ → Bool) (w : List ℕ) (i a : ℕ) → get_elem? w i ≡ some a → p a ≡ true → any p w ≡ true
any_at p [] i a e h = cc
any_at p (x ∷ w) zero a e h = ground (arith)
any_at p (x ∷ w) (suc i) a e h = ground (arith, any_at p w i a e h)

any-place :
    (p : ℕ → Bool) (w : List ℕ)
    → any p w ≡ true
    → (i : ℕ) × (a : ℕ) × (get_elem? w i ≡ some a) × (p a ≡ true)
any-place p [] h = cc
any-place p (x ∷ w) h = elim (Bool-cases (p x)) [
  | inl hit ↦ (0, x, refl, hit)
  | inr miss ↦ let (i, a, e, found) = any-place p w (ground arith) in (suc i, a, e, found)
]

place_cases : (a b : ℕ) → (a ≡ b) ⊎ (a ≢ b)
place_cases a b = elim (Bool-cases (a == b)) [
  | inl e ↦ inl ((==_iff a b).0 e)
  | inr e ↦ inr (λ h. ground (arith, ==_iff a b))
]

swapped_first :
    (i j a b : ℕ) (buf : List ℕ)
    → i < length buf
    → get_elem? buf i ≡ some a
    → get_elem? buf j ≡ some b
    → get_elem? (assign j a (assign i b buf)) i ≡ some b
swapped_first i j a b buf hi ei ej = elim (place_cases i j) [
  | inl e ↦
      let hj : j < length (assign i b buf) = omega (arith, length-assign i b buf) in
      ap (get_elem? (assign j a (assign i b buf))) e
      ∙ assign_same j a (assign i b buf) hj
      ∙ sym ei
      ∙ ap (get_elem? buf) e
      ∙ ej
  | inr apart ↦ assign_other j i a (assign i b buf) (λ e. apart (sym e)) ∙ assign_same i b buf hi
]

swapped_elsewhere :
    (i j a b k : ℕ) (buf : List ℕ)
    → i ≢ k
    → j ≢ k
    → get_elem? (assign j a (assign i b buf)) k ≡ get_elem? buf k
swapped_elsewhere i j a b k buf hi hj =
    assign_other j k a (assign i b buf) hj ∙ assign_other i k b buf hi

pub swapped-Keeps :
    (i j a b : ℕ) (buf : List ℕ)
    → i < length buf
    → j < length buf
    → get_elem? buf i ≡ some a
    → get_elem? buf j ≡ some b
    → Keeps buf (assign j a (assign i b buf))
swapped-Keeps i j a b buf hi hj ei ej = (
  length-assign j a (assign i b buf) ∙ length-assign i b buf,
  λ p found.
      let (k, c, e, hit) = any-place p buf found in
      let new = assign j a (assign i b buf) in
      elim (place_cases k j) [
        | inl at ↦
            let e' : get_elem? buf j ≡ some c = subst (λ k. get_elem? buf k ≡ some c) at e in
            any_at p new i b (swapped_first i j a b buf hi ei ej)
              (let eq : b ≡ c = ground arith in subst (λ x. p x ≡ true) (sym eq) hit)
        | inr apart ↦ elim (place_cases k i) [
          | inl at ↦
              let e' : get_elem? buf i ≡ some c = subst (λ k. get_elem? buf k ≡ some c) at e in
              let hj' : j < length (assign i b buf) = omega (arith, length-assign i b buf) in
              any_at p new j a (assign_same j a (assign i b buf) hj')
                (let eq : a ≡ c = ground arith in subst (λ x. p x ≡ true) (sym eq) hit)
          | inr apart' ↦
              any_at p new k c
                (swapped_elsewhere i j a b k buf (λ e. apart' (sym e)) (λ e. apart (sym e)) ∙ e) hit
        ]
      ],
)

pub Keeps-trans : (a b c : List ℕ) → Keeps a b → Keeps b c → Keeps a c
Keeps-trans a b c (e, keep) (e', keep') = (e' ∙ e, λ p found. keep' p (keep p found))
