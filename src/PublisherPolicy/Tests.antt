-- ===== src/PublisherPolicy/Tests.antt =====
-- Two feedbacks that stand, and what a plan for another score leaves.
use sigvara.PublisherPolicy.{Feedback, plan_update, is_value}
use sigvara.PublisherPolicy.Updates.{plan_update-carry_out, carry_out, AreDistinct}
use sigvara.Prelude.{All, List, [], arith, false, length, none, refl, some, true, ◌∷◌, ◌≡◌}

abbrev two_live : List Feedback
two_live =
    record { index = 3; value = 40; decimals = 0 }
    ∷ record { index = 4; value = 550; decimals = 1 }
    ∷ []

abbrev posted : Feedback
posted = record { index = 5; value = 55; decimals = 0 }

two_live-AreDistinct : AreDistinct two_live
two_live-AreDistinct = ((omega arith, tt), (tt, tt))

plan_update-carry_out_example :
    (carry_out (plan_update none two_live) posted two_live ≡ [])
    × (length (carry_out (plan_update (some 55) two_live) posted two_live) ≡ 1)
    × All (λ f. is_value 55 f ≡ true) (carry_out (plan_update (some 55) two_live) posted two_live)
    × (plan_update (some 55) (carry_out (plan_update (some 55) two_live) posted two_live)
        ≡ record { revoke = []; post = false })
unfolding is_value
plan_update-carry_out_example = plan_update-carry_out 55 two_live posted two_live-AreDistinct refl
