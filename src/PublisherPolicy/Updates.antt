-- ===== src/PublisherPolicy/Updates.antt =====
-- What stands after a plan is carried out.
use sigvara.PublisherPolicy.{Feedback, Plan, find_value, is_value, others, plan_update}
use sigvara.Prelude.{
  All, Bool, List, [], false, keep, none, not, ℕ, ◌==◌, ◌||◌, ◌∷◌, ◌≡◌, ◌≢◌, Bool-cases, arith,
  if◌then◌else◌, inl, inr, map, refl, some, true, ◌++◌, Option-cases, ap, length, All-map,
}

-- The feedback that is left once the indices of a plan are revoked.
pub is_revoked : List ℕ → ℕ → Bool
is_revoked [] i = false
is_revoked (j ∷ js) i = j == i || is_revoked js i

pub standing : List ℕ → List Feedback → List Feedback
standing revoke live = keep (λ f. not (is_revoked revoke f.index)) live

-- Indices that differ from one feedback to the next.
abbrev pub AreDistinct : List Feedback → Type 0
AreDistinct [] = Unit
AreDistinct (f ∷ live) = All (λ g. f.index ≢ g.index) live × AreDistinct live

standing-revoked :
    (revoke : List ℕ) (live : List Feedback)
    → All (λ f. is_revoked revoke f.index ≡ true) live
    → standing revoke live ≡ []
unfolding standing
standing-revoked revoke [] all = refl
standing-revoked revoke (f ∷ live) all = rw (all.0) (standing-revoked revoke live all.1)

all_revoked :
    (live : List Feedback) → All (λ f. is_revoked (map (λ g. g.index) live) f.index ≡ true) live
unfolding is_revoked
all_revoked [] = tt
all_revoked (f ∷ live) = (
  ground arith,
  All-map (λ g. is_revoked (map (λ h. h.index) live) g.index ≡ true)
      (λ g. is_revoked (f.index ∷ map (λ h. h.index) live) g.index ≡ true) live
      (λ g h. ground (arith, h)) (all_revoked live),
)

is_revoked-other :
    (i : ℕ) (revoke : List ℕ) (j : ℕ) → i ≢ j → is_revoked (i ∷ revoke) j ≡ is_revoked revoke j
unfolding is_revoked
is_revoked-other i revoke j ne = ground (arith, ne)

keep-cons :
    (p q : Feedback → Bool) (f : Feedback) (live : List Feedback)
    → p f ≡ q f
    → keep p live ≡ keep q live
    → keep p (f ∷ live) ≡ keep q (f ∷ live)
keep-cons p q f live e h = rw (e, h) refl

standing-cons :
    (revoke : List ℕ) (f : Feedback) (live : List Feedback)
    → standing revoke (f ∷ live)
      ≡ (if is_revoked revoke f.index then standing revoke live else f ∷ standing revoke live)
unfolding standing
standing-cons revoke f live = ground arith

-- Revoking an index that no feedback has changes nothing.
standing-other :
    (i : ℕ) (revoke : List ℕ) (live : List Feedback)
    → All (λ g. i ≢ g.index) live
    → standing (i ∷ revoke) live ≡ standing revoke live
unfolding standing
standing-other i revoke [] all = refl
standing-other i revoke (f ∷ live) all =
    let off : is_revoked (i ∷ revoke) f.index ≡ is_revoked revoke f.index =
      is_revoked-other i revoke f.index (all.0) in
    keep-cons (λ g. not (is_revoked (i ∷ revoke) g.index)) (λ g. not (is_revoked revoke g.index)) f
      live (ap not off) (standing-other i revoke live all.1)

standing-kept :
    (live : List Feedback) (f : Feedback)
    → All (λ g. f.index ≢ g.index) live
    → is_revoked (map (λ h. h.index) live) f.index ≡ false
unfolding is_revoked
standing-kept [] f all = refl
standing-kept (g ∷ live) f all =
    let ih = standing-kept live f all.1 in let ne = all.0 in ground (arith, ih, ne)

others-cons :
    (v : ℕ) (f : Feedback) (live : List Feedback)
    → others v (f ∷ live) ≡ (if is_value v f then live else f ∷ others v live)
unfolding others
others-cons v f live = refl

found_here :
    (v : ℕ) (f : Feedback) (live : List Feedback) (kept : Feedback)
    → is_value v f ≡ true
    → find_value v (f ∷ live) ≡ some kept
    → f ≡ kept
unfolding find_value
found_here v f live kept here found = ground arith

found_later :
    (v : ℕ) (f : Feedback) (live : List Feedback) (kept : Feedback)
    → is_value v f ≡ false
    → find_value v (f ∷ live) ≡ some kept
    → find_value v live ≡ some kept
unfolding find_value
found_later v f live kept later found = ground arith

is_revoked_first : (i : ℕ) (revoke : List ℕ) → is_revoked (i ∷ revoke) i ≡ true
unfolding is_revoked
is_revoked_first i revoke = ground arith

find_value_none : (v : ℕ) (kept : Feedback) → find_value v [] ≢ some kept
unfolding find_value
find_value_none v kept found = ground arith

standing-others :
    (v : ℕ) (live : List Feedback) (kept : Feedback)
    → AreDistinct live
    → find_value v live ≡ some kept
    → standing (map (λ f. f.index) (others v live)) live ≡ kept ∷ []
standing-others v [] kept d found = absurd (find_value_none v kept found)
standing-others v (f ∷ live) kept d found = elim (Bool-cases (is_value v f)) [
  | inl here ↦
      rw
        (
          others-cons v f live,
          here,
          standing-cons (map (λ g. g.index) live) f live,
          standing-kept live f d.0,
          standing-revoked (map (λ g. g.index) live) live (all_revoked live),
        )
        (ap (λ x. x ∷ []) (found_here v f live kept here found))
  | inr later ↦
      rw
        (
          others-cons v f live,
          later,
          standing-cons (f.index ∷ map (λ g. g.index) (others v live)) f live,
          is_revoked_first f.index (map (λ g. g.index) (others v live)),
          standing-other f.index (map (λ g. g.index) (others v live)) live d.0,
        )
        (standing-others v live kept d.1 (found_later v f live kept later found))
]

find_value-IsValue :
    (v : ℕ) (live : List Feedback) (kept : Feedback)
    → find_value v live ≡ some kept
    → is_value v kept ≡ true
unfolding find_value
find_value-IsValue v [] kept found = cc
find_value-IsValue v (f ∷ live) kept found = ground (arith, find_value-IsValue v live kept)

-- What stands after a plan is carried out, `fresh` being what is posted.
pub carry_out : Plan → Feedback → List Feedback → List Feedback
carry_out plan fresh live = standing plan.revoke live ++ (if plan.post then fresh ∷ [] else [])

standing_alone :
    (v : ℕ) (f : Feedback)
    → is_value v f ≡ true
    → plan_update (some v) (f ∷ []) ≡ record { revoke = []; post = false }
unfolding plan_update find_value others
standing_alone v f h = rw (h, plan_update, others-cons v f [], h) refl

carry_out-none :
    (live : List Feedback) (fresh : Feedback) → carry_out (plan_update none live) fresh live ≡ []
unfolding plan_update carry_out
carry_out-none live fresh =
    rw (standing-revoked (map (λ f. f.index) live) live (all_revoked live)) refl

-- With a score, one feedback of its value is left.
carry_out-some :
    (v : ℕ) (live : List Feedback) (fresh : Feedback)
    → AreDistinct live
    → is_value v fresh ≡ true
    → ((f : Feedback) × (carry_out (plan_update (some v) live) fresh live ≡ f ∷ [])
        × (is_value v f ≡ true))
unfolding carry_out plan_update standing
carry_out-some v live fresh d h = elim (Option-cases (find_value v live)) [
  | inl missing ↦ (
    fresh,
    rw (missing, plan_update, standing-revoked (map (λ f. f.index) live) live (all_revoked live))
        refl,
    h,
  )
  | inr (kept, found) ↦ (
    kept,
    rw (found, plan_update, standing-others v live kept d found) refl,
    find_value-IsValue v live kept found,
  )
]

-- With no score to publish, carrying the plan out leaves nothing standing. With a score, it leaves
-- one feedback and that has the value of the score, provided what is posted has; and so the next
-- plan for the same score revokes nothing and posts nothing.
pub plan_update-carry_out :
    (v : ℕ) (live : List Feedback) (fresh : Feedback)
    → AreDistinct live
    → is_value v fresh ≡ true
    → (carry_out (plan_update none live) fresh live ≡ [])
      × (length (carry_out (plan_update (some v) live) fresh live) ≡ 1)
      × All (λ f. is_value v f ≡ true) (carry_out (plan_update (some v) live) fresh live)
      × (plan_update (some v) (carry_out (plan_update (some v) live) fresh live)
          ≡ record { revoke = []; post = false })
plan_update-carry_out v live fresh d h =
    let (f, one, value) = carry_out-some v live fresh d h in
    (carry_out-none live fresh, rw one refl, rw one (value, tt), rw one (standing_alone v f value))
