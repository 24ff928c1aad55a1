-- ===== src/Graph/Tokens.antt =====
-- Texts compared by their words: tokenSet, normalizePhrase, tokenSimilarity and fieldSimilarity of
-- internal/graph/similarity.go. What Go's Unicode tables and maps answer is a parameter.
pub mod Same
use wachd.Graph.Float.{div_float, div_float, hundredths, one, float}
use wachd.Base.{
  ℕ, zero, suc, ◌+◌, ◌*◌, List, [], ◌∷◌, Bool, true, false, ltb, any, if◌then◌else◌, String, ◌||◌,
  ◌++◌, not, ◌==◌, is_nil, ◌&&◌, length,
}
use wachd.Password.{codes}
use wachd.Notify.Text.{trim_space}
use wachd.Notify.Slack.{contains}
use wachd.Graph.Types.{Node, Json, same_text}
use wachd.Table.{order_by}

-- unicode.IsLetter, unicode.IsDigit and unicode.ToLower; and the random order of Go's maps: the properties
-- with their fields, at each level, in the order in which the lookup of one key meets them when a candidate
-- is scored against a source. The Boolean says that the properties are the candidate's.
pub record Runtime : Type 0 where
  pub is_letter : ℕ → Bool
  pub is_digit : ℕ → Bool
  pub to_lower : ℕ → ℕ
  pub visit : Node → Node → Bool → String → Json → Json

-- The order of Go's strings, byte by byte, is that of the code points.
abbrev pub text_before : List ℕ → List ℕ → Bool
text_before rs [] = false
text_before [] (s ∷ ss) = true
text_before (r ∷ rs) (s ∷ ss) = ltb r s || r == s && text_before rs ss

abbrev pub has_text : List ℕ → List (List ℕ) → Bool
has_text text texts = any (same_text text) texts

-- strings.Join
unfoldable pub join_with : List ℕ → List (List ℕ) → List ℕ
join_with between [] = []
join_with between (t ∷ texts) =
    let rest = join_with between texts in if is_nil texts then t else t ++ between ++ rest

unfoldable pub stop_words : List (List ℕ)
stop_words = map_codes (
    "a" ∷ "an" ∷ "and" ∷ "are" ∷ "as" ∷ "at" ∷ "be" ∷ "by" ∷ "for" ∷ "from" ∷ "has" ∷ "have" ∷ "in"
    ∷ "is" ∷ "it" ∷ "of" ∷ "on" ∷ "or" ∷ "that" ∷ "the" ∷ "this" ∷ "to" ∷ "was" ∷ "were" ∷ "with"
    ∷ "after" ∷ "before" ∷ "during" ∷ "service" ∷ "alert" ∷ "error" ∷ "errors" ∷ "failure"
    ∷ "failed" ∷ [])
  where
    map_codes : List String → List (List ℕ)
    map_codes [] = []
    map_codes (s ∷ ss) = codes s ∷ map_codes ss

-- The size of what two sets of words share.
unfoldable pub intersection : List (List ℕ) → List (List ℕ) → ℕ
intersection [] right = 0
intersection (t ∷ left) right =
    let rest = intersection left right in if has_text t right then suc rest else rest

unfoldable pub ratio : ℕ → ℕ → ℕ → ℕ
unfolding div_float
ratio zero l r = 0
ratio (suc i) l r = div_float (float (2 * suc i)) (float (l + r))

unfoldable pub overlap : List (List ℕ) → List (List ℕ) → ℕ
unfolding intersection ratio
overlap left right =
    if is_nil left || is_nil right
    then 0
    else ratio (intersection left right) (length left) (length right)

module _ (u : Runtime) where
  abbrev pub is_word_rune : ℕ → Bool
  is_word_rune r = u.is_letter r || u.is_digit r

  abbrev pub lower : List ℕ → List ℕ
  lower [] = []
  lower (r ∷ rs) = u.to_lower r ∷ lower rs

  abbrev add_field : List ℕ → List (List ℕ) → List (List ℕ)
  add_field [] fields = fields
  add_field (r ∷ rs) fields = (r ∷ rs) ∷ fields

  -- strings.FieldsFunc: `word` is the word that the text before has begun.
  unfoldable pub fields_func : List ℕ → List ℕ → List (List ℕ)
  fields_func word [] = add_field word []
  fields_func word (r ∷ rs) = elim (is_word_rune r) [
    | true ↦ fields_func (word ++ r ∷ []) rs
    | false ↦ add_field word (fields_func [] rs)
  ]

  -- A set, as a list without repetition.
  unfoldable pub add_token : List ℕ → List (List ℕ) → List (List ℕ)
  unfolding trim_space stop_words
  add_token field tokens =
      if is_nil (trim_space field)
        || has_text (trim_space field) stop_words
        || has_text (trim_space field) tokens
      then tokens
      else trim_space field ∷ tokens

  unfoldable pub tokens_of : List (List ℕ) → List (List ℕ)
  unfolding add_token
  tokens_of [] = []
  tokens_of (field ∷ fields) = add_token field (tokens_of fields)

  unfoldable pub token_set : List ℕ → List (List ℕ)
  unfolding tokens_of fields_func
  token_set text = tokens_of (fields_func [] (lower text))

  unfoldable pub normalize_phrase : List ℕ → List ℕ
  unfolding token_set join_with
  normalize_phrase text = join_with (codes " ") (order_by text_before (token_set text))

  unfoldable pub token_similarity : List ℕ → List ℕ → ℕ
  unfolding token_set overlap
  token_similarity left right = overlap (token_set left) (token_set right)

  abbrev pub either_contains : List ℕ → List ℕ → Bool
  either_contains a b = not (is_nil a) && not (is_nil b) && (contains a b || contains b a)

  unfoldable pub phrase_similarity : List ℕ → List ℕ → ℕ → ℕ
  unfolding hundredths
  phrase_similarity source_norm candidate_norm otherwise =
      if same_text source_norm candidate_norm
      then one
      else if either_contains source_norm candidate_norm
      then hundredths 75
      else otherwise

  unfoldable pub trimmed_similarity : Bool → List ℕ → List ℕ → ℕ
  unfolding token_similarity normalize_phrase phrase_similarity
  trimmed_similarity exact_match source candidate =
      if is_nil source || is_nil candidate
      then 0
      else if exact_match
      then phrase_similarity (normalize_phrase source) (normalize_phrase candidate)
          (token_similarity source candidate)
      else token_similarity source candidate

  unfoldable pub field_similarity : Bool → List ℕ → List ℕ → ℕ
  unfolding trim_space trimmed_similarity
  field_similarity exact_match source candidate =
      trimmed_similarity exact_match (trim_space source) (trim_space candidate)
