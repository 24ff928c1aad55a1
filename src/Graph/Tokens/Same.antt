-- ===== src/Graph/Tokens/Same.antt =====
-- A text compared with itself.
use wachd.Base.{
  ℕ, suc, ◌*◌, ◌≡◌, ◌⊎◌, refl, ap, ◌∙◌, Bool, true, false, List, [], ◌∷◌, All, length, is_nil, inl,
  inr, arith,
}
use wachd.Notify.Text.{trim_space}
use wachd.Graph.Types.{same_text}
use wachd.Table.Change.{All-map}
use wachd.Graph.Float.{one, float, div_float}
use wachd.Graph.Float.Exact.{div_float_self}
use wachd.Graph.Tokens.{
  Runtime, token_set, overlap, ratio, intersection, has_text, field_similarity, normalize_phrase,
}

pub same_text_refl : (rs : List ℕ) → same_text rs rs ≡ true
same_text_refl [] = refl
same_text_refl (r ∷ rs) = ground (arith, same_text_refl rs)

All-shared : (ts : List (List ℕ)) → All (λ t. has_text t ts ≡ true) ts
All-shared [] = tt
All-shared (t ∷ ts) =
    (ground (arith, same_text_refl t), All-map ts (λ x h. ground (arith, h)) (All-shared ts))

intersection_shared :
    (l r : List (List ℕ)) → All (λ t. has_text t r ≡ true) l → intersection l r ≡ length l
unfolding intersection
intersection_shared [] r all = refl
intersection_shared (t ∷ l) r all = rw (all.0, intersection_shared l r all.1) refl

ratio_self : (k : ℕ) → ratio (suc k) (suc k) (suc k) ≡ one
unfolding ratio
ratio_self k =
    ap (λ x. div_float (float (2 * suc k)) (float x)) (omega arith)
    ∙ div_float_self (float (2 * suc k)) (omega arith)

overlap_self : (ts : List (List ℕ)) → is_nil ts ≡ false → overlap ts ts ≡ one
unfolding overlap
overlap_self [] h = ground arith
overlap_self (t ∷ ts) h =
    rw (intersection_shared (t ∷ ts) (t ∷ ts) (All-shared (t ∷ ts))) (ratio_self (length ts))

module _ (u : Runtime) where
  -- A text is like itself, if it is compared as a whole or has a word that is no stop word.
  pub field_similarity_self :
      (exact_match : Bool) (text : List ℕ)
      → is_nil (trim_space text) ≡ false
      → (exact_match ≡ true) ⊎ (is_nil (token_set u (trim_space text)) ≡ false)
      → field_similarity u exact_match text text ≡ one
  unfolding field_similarity
  field_similarity_self true text h c =
      rw (h, same_text_refl (normalize_phrase u (trim_space text))) refl
  field_similarity_self false text h (inl e) = ground arith
  field_similarity_self false text h (inr w) = rw h (overlap_self (token_set u (trim_space text)) w)
