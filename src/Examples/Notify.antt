-- ===== src/Examples/Notify.antt =====
-- An alert with a long title, and what is told of it.
use wachd.Base.{ℕ, ◌-◌, ◌≤◌, List, [], ◌++◌, length, ltb, none, some, ◌≡◌, ◌⊎◌, refl, arith, true}
use wachd.Password.{codes, repeat}
use wachd.Notify.Text.{truncate_runes}
use wachd.Notify.Sms.{SimilarIncident, build_message, similar_suffix, sms_body}
use wachd.Notify.Sms.Bounded.{sms_body-Fits}

abbrev similar : SimilarIncident
similar = record {
  title = codes " Payments down ";
  percent = codes "87%";
  resolution = codes "Restarted the pool";
  url = [];
  fired_on = none;
}

abbrev long_title : List ℕ
long_title = repeat 200 0x61

abbrev same_case : List ℕ → List ℕ
same_case text = text

sms_body-Fits_example :
    (body : List ℕ) × (sms_body same_case
        (some (codes "+49"))
        (codes "HIGH")
        long_title
        none
        (some similar)
      ≡ some body)
    × (length body ≤ 160)
    × ((front : List ℕ) × (body ≡ front ++ similar_suffix similar)
        × ((front ≡ build_message same_case (codes "HIGH") long_title none)
            ⊎ (front
                ≡ truncate_runes
                    (build_message same_case (codes "HIGH") long_title none)
                    (160 - length (similar_suffix similar)))))
sms_body-Fits_example =
    sms_body-Fits same_case (codes "+49") (codes "HIGH") long_title none similar refl (omega arith)

-- Without a similar incident the message is as long as the title makes it.
plain_message_unbounded :
    ltb 160 (length (build_message same_case (codes "HIGH") long_title none)) ≡ true
unfolding build_message
plain_message_unbounded = refl
