-- ===== src/Notify/Sms/Bounded.antt =====
-- How long a text message is.
use wachd.Base.{
  ℕ, ◌+◌, ◌-◌, ◌≤◌, false, List, ◌++◌, length, length-append, is_nil, Option, some, leb, ◌≡◌, refl,
  arith, Bool-cases, inl, inr, ◌⊎◌,
}
use wachd.Password.{codes}
use wachd.Notify.Text.{trim_space, truncate_runes, length-truncate_runes}
use wachd.Notify.Sms.{
  SimilarIncident, build_message, similar_suffix, fit_suffix, build_message_with_similar, sms_body,
  title_or,
}

joined_length :
    (a b c d e : List ℕ)
    → length (a ++ b ++ c ++ d ++ e) ≡ length a + length b + length c + length d + length e
joined_length a b c d e = omega (
  arith,
  length-append a b,
  length-append (a ++ b) c,
  length-append (a ++ b ++ c) d,
  length-append (a ++ b ++ c ++ d) e,
)

similar_suffix_bounded :
    (s : SimilarIncident) → length s.percent ≤ 4 → length (similar_suffix s) ≤ 52
unfolding similar_suffix
similar_suffix_bounded s percent =
    let title = title_or (trim_space s.title) (codes "past incident") in
    let short : length (truncate_runes title 34) ≤ 34 = length-truncate_runes title 34 in
    go (truncate_runes title 34) short
  where
    go :
        (t : List ℕ)
        → length t ≤ 34
        → length (codes " Similar: " ++ t ++ codes " (" ++ s.percent ++ codes ").") ≤ 52
    go t short =
        omega (arith, joined_length (codes " Similar: ") t (codes " (") s.percent (codes ")."))

fit_suffix-Fits :
    (base suffix : List ℕ)
    → length suffix ≤ 52
    → (length (fit_suffix base suffix) ≤ 160)
      × ((front : List ℕ) × (fit_suffix base suffix ≡ front ++ suffix)
          × ((front ≡ base) ⊎ (front ≡ truncate_runes base (160 - length suffix))))
unfolding fit_suffix
fit_suffix-Fits base suffix short = elim (Bool-cases (leb (length base + length suffix) 160)) [
  | inl fits ↦ rw fits (ground (arith, length-append base suffix), (base, refl, inl refl))
  | inr long ↦
      let room : leb 160 (length suffix) ≡ false = ground arith in
      let cut = truncate_runes base (160 - length suffix) in
      rw (long, room)
        (
          omega (arith, length-append cut suffix, length-truncate_runes base (160 - length suffix)),
          (cut, refl, inr refl),
        )
]

-- A text message with a similar incident has at most 160 runes, and ends with the whole sentence on the similar
-- incident; in front of it stands the plain message, cut where it is too long. A percentage has at most four
-- runes.
pub sms_body-Fits :
    (upper : List ℕ → List ℕ) (phone severity title : List ℕ) (cause : Option (List ℕ))
    (s : SimilarIncident)
    → is_nil phone ≡ false
    → length s.percent ≤ 4
    → (body : List ℕ) × (sms_body upper (some phone) severity title cause (some s) ≡ some body)
      × (length body ≤ 160)
      × ((front : List ℕ) × (body ≡ front ++ similar_suffix s)
          × ((front ≡ build_message upper severity title cause)
              ⊎ (front
                  ≡ truncate_runes
                      (build_message upper severity title cause)
                      (160 - length (similar_suffix s)))))
unfolding sms_body build_message_with_similar
sms_body-Fits upper phone severity title cause s given percent =
    let base = build_message upper severity title cause in
    let (bounded, ends) =
      fit_suffix-Fits base (similar_suffix s) (similar_suffix_bounded s percent) in
    (fit_suffix base (similar_suffix s), rw given refl, bounded, ends)
