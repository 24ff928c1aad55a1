-- ===== src/Graph/Score/Same.antt =====
-- The score of an incident that repeats a past one.
use wachd.Base.{
  ℕ, ◌<◌, ◌≡◌, ◌⊎◌, refl, ap, ◌∙◌, true, false, List, [], ◌∷◌, All, is_nil, Bool-cases, inl, inr,
  arith, ◌==◌,
}
use wachd.Notify.Text.{trim_space}
use wachd.Graph.Types.{Node}
use wachd.Graph.Float.{one, mul_float, div_float, hundredths}
use wachd.Graph.Float.Exact.{div_float_self, add_float_pos}
use wachd.Graph.Tokens.Same.{field_similarity_self}
use wachd.Graph.Tokens.{Runtime, token_set, field_similarity}
use wachd.Graph.Score.{
  SimilaritySignal, Tally, counted, add_signal, add_signals, signals, signal, similar_node, scored,
  round_score, clamped, score_node_similarity,
}

weight_5 : mul_float (hundredths 5) one ≡ hundredths 5
unfolding mul_float hundredths
weight_5 = refl

weight_10 : mul_float (hundredths 10) one ≡ hundredths 10
unfolding mul_float hundredths
weight_10 = refl

weight_15 : mul_float (hundredths 15) one ≡ hundredths 15
unfolding mul_float hundredths
weight_15 = refl

weight_20 : mul_float (hundredths 20) one ≡ hundredths 20
unfolding mul_float hundredths
weight_20 = refl

weight_25 : mul_float (hundredths 25) one ≡ hundredths 25
unfolding mul_float hundredths
weight_25 = refl

-- What the loop starts with.
abbrev nothing : Tally
nothing = record { weighted_score = 0; available_weight = 0; reasons = [] }

round_one : round_score (clamped one) ≡ one
unfolding round_score div_float mul_float
round_one = refl

is_zero : (n : ℕ) → 0 < n → (n == 0) ≡ false
is_zero n h = ground arith

similar_node_full :
    (n : Node) (t : Tally)
    → t.weighted_score ≡ t.available_weight
    → 0 < t.available_weight
    → (similar_node n t).score ≡ one
unfolding similar_node scored
similar_node_full n t e h =
    rw (is_zero t.available_weight h, e, div_float_self t.available_weight h) round_one

module _ (u : Runtime) where
  -- A signal that counts in full, or not at all.
  abbrev IsPerfect : SimilaritySignal → Type 0
  IsPerfect s =
      (is_nil (trim_space s.source) ≡ true)
      ⊎ ((field_similarity u s.exact_match s.source s.candidate ≡ one)
          × (mul_float s.weight one ≡ s.weight))

  -- The text is blank, is compared as a whole, or has a word that is no stop word.
  abbrev pub IsComparable : SimilaritySignal → Type 0
  IsComparable s =
      (is_nil (trim_space s.source) ≡ true)
      ⊎ (s.exact_match ≡ true)
      ⊎ (is_nil (token_set u (trim_space s.source)) ≡ false)

  -- The texts agree, and the weight is left by a multiplication with 1.
  abbrev IsFair : SimilaritySignal → Type 0
  IsFair s = (s.candidate ≡ s.source) × (mul_float s.weight one ≡ s.weight)

  compared :
      (s : SimilaritySignal)
      → is_nil (trim_space s.source) ≡ false
      → IsComparable s
      → (s.exact_match ≡ true) ⊎ (is_nil (token_set u (trim_space s.source)) ≡ false)
  compared s b (inl k) = ground arith
  compared s b (inr k) = k

  fair-IsPerfect : (s : SimilaritySignal) → IsFair s → IsComparable s → IsPerfect s
  fair-IsPerfect s f c = elim (Bool-cases (is_nil (trim_space s.source))) [
    | inl b ↦ inl b
    | inr b ↦ inr (
      ap (λ x. field_similarity u s.exact_match s.source x) f.0
          ∙ field_similarity_self u s.exact_match s.source b (compared s b c),
      f.1,
    )
  ]

  All-IsPerfect : (l : List SimilaritySignal) → All IsFair l → All IsComparable l → All IsPerfect l
  All-IsPerfect [] f c = tt
  All-IsPerfect (s ∷ l) f c = (fair-IsPerfect s f.0 c.0, All-IsPerfect l f.1 c.1)

  add_signal-IsBalanced :
      (s : SimilaritySignal) (t : Tally)
      → IsPerfect s
      → t.weighted_score ≡ t.available_weight
      → (add_signal u s t).weighted_score ≡ (add_signal u s t).available_weight
  unfolding add_signal counted
  add_signal-IsBalanced s t (inl b) e = rw b e
  add_signal-IsBalanced s t (inr p) e = elim (Bool-cases (is_nil (trim_space s.source))) [
    | inl b ↦ rw b e
    | inr b ↦ rw (b, p.0, p.1, e) refl
  ]

  add_signals-IsBalanced :
      (l : List SimilaritySignal) (t : Tally)
      → All IsPerfect l
      → t.weighted_score ≡ t.available_weight
      → (add_signals u l t).weighted_score ≡ (add_signals u l t).available_weight
  unfolding add_signals
  add_signals-IsBalanced [] t all e = e
  add_signals-IsBalanced (s ∷ l) t all e =
      add_signals-IsBalanced l _ all.1 (add_signal-IsBalanced s t all.0 e)

  add_signal-grows :
      (s : SimilaritySignal) (t : Tally)
      → 0 < t.available_weight
      → 0 < (add_signal u s t).available_weight
  unfolding add_signal counted
  add_signal-grows s t h = elim (Bool-cases (is_nil (trim_space s.source))) [
    | inl b ↦ rw b h
    | inr b ↦ rw b (add_float_pos t.available_weight s.weight (omega arith))
  ]

  add_signals-grows :
      (l : List SimilaritySignal) (t : Tally)
      → 0 < t.available_weight
      → 0 < (add_signals u l t).available_weight
  unfolding add_signals
  add_signals-grows [] t h = h
  add_signals-grows (s ∷ l) t h = add_signals-grows l _ (add_signal-grows s t h)

  signals_weights : (s c : Node) → All (λ t. mul_float t.weight one ≡ t.weight) (signals u s c)
  unfolding signals signal
  signals_weights s c =
      (weight_20, (weight_25, (weight_20, (weight_15, (weight_10, (weight_5, (weight_5, tt)))))))

  -- The texts of the two nodes agree.
  abbrev pub Agrees : SimilaritySignal → Type 0
  Agrees s = s.candidate ≡ s.source

  All-IsFair :
      (l : List SimilaritySignal)
      → All Agrees l
      → All (λ t. mul_float t.weight one ≡ t.weight) l
      → All IsFair l
  All-IsFair [] a w = tt
  All-IsFair (s ∷ l) a w = ((a.0, w.0), All-IsFair l a.1 w.1)

  -- The first signal counts.
  abbrev Leads : List SimilaritySignal → Type 0
  Leads [] = ⊥
  Leads (s ∷ l) = (is_nil (trim_space s.source) ≡ false) × 0 < s.weight

  Leads-grows :
      (l : List SimilaritySignal) → Leads l → 0 < (add_signals u l nothing).available_weight
  unfolding add_signals add_signal counted
  Leads-grows [] h = elim h [ ]
  Leads-grows (s ∷ l) h =
      add_signals-grows l _ (rw h.0 (add_float_pos 0 s.weight (omega (arith, h.1))))

  signals-Leads : (s c : Node) → is_nil (trim_space s.label) ≡ false → Leads (signals u s c)
  unfolding signals hundredths
  signals-Leads s c h = (h, omega arith)

  -- A candidate with the title of the node, and of which the scorer reads the same texts as of the node for
  -- each of its signals, scores 1, when the title is not blank and each of these texts is blank, is compared
  -- as a whole, or has a word that is no stop word.
  pub score_node_similarity_repeated :
      (source candidate : Node)
      → All Agrees (signals u source candidate)
      → is_nil (trim_space source.label) ≡ false
      → All IsComparable (signals u source candidate)
      → (score_node_similarity u source candidate).score ≡ one
  unfolding score_node_similarity
  score_node_similarity_repeated source candidate a b c =
      let l = signals u source candidate in
      similar_node_full candidate _
        (add_signals-IsBalanced l nothing
          (All-IsPerfect l (All-IsFair l a (signals_weights source candidate)) c) refl)
        (Leads-grows l (signals-Leads source candidate b))
