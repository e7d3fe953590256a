-- ===== src/EpochPolicy/Divergences.antt =====
-- No disagreement of one factor hides behind the others.
use sigvara.EpochPolicy.{
  decide_checker_action, score_factors, compare_factor, compare_factors, abs_diff, score_divergence,
  Divergence, Factor, Pending, Factors, Grace, CheckerAction,
}
use sigvara.Prelude.{
  List, Option, [], arith, false, inl, inr, none, refl, some, subst, true, ℕ, ◌<◌, ◌∈◌, ◌∷◌, ◌≡◌,
  ◌⊎◌,
}

-- A factor that one side cannot compute, or in which the two differ by more than the tolerance.
abbrev pub Differs : Option ℕ → Option ℕ → ℕ → Type 0
Differs (some p) (some o) tolerance = tolerance < abs_diff o p
Differs none o tolerance = Unit
Differs (some p) none tolerance = Unit

-- What a divergence shows of a difference.
abbrev pub Shows : ℕ → Divergence → Type 0
Shows tolerance d = (d.comparable ≡ false) ⊎ (tolerance < d.max_factor)

compare_factor-here :
    (f : Factor) (p o : Option ℕ) (d : Divergence) (tolerance : ℕ)
    → Differs p o tolerance
    → Shows tolerance (compare_factor f p o d)
unfolding compare_factor
compare_factor-here f none o d t h = inl refl
compare_factor-here f (some p) none d t h = inl refl
compare_factor-here f (some p) (some o) d t h = inr (ground arith)

compare_factor-keeps :
    (f : Factor) (p o : Option ℕ) (d : Divergence) (tolerance : ℕ)
    → Shows tolerance d
    → Shows tolerance (compare_factor f p o d)
unfolding compare_factor
compare_factor-keeps f none o d t h = inl refl
compare_factor-keeps f (some p) none d t h = inl refl
compare_factor-keeps f (some p) (some o) d t (inl e) = inl e
compare_factor-keeps f (some p) (some o) d t (inr h) = inr (ground arith)

pub compare_factors-Shows :
    (fs : List Factor) (pending own : Factors) (f : Factor) (tolerance : ℕ)
    → f ∈ fs
    → Differs (pending f) (own f) tolerance
    → Shows tolerance (compare_factors fs pending own)
unfolding compare_factors
compare_factors-Shows [] pending own f t m h = absurd m
compare_factors-Shows (g ∷ fs) pending own f t (inl e) h =
    compare_factor-here g (pending g) (own g) (compare_factors fs pending own) t
      (subst (λ k. Differs (pending k) (own k) t) e h)
compare_factors-Shows (g ∷ fs) pending own f t (inr m) h =
    compare_factor-keeps g (pending g) (own g) (compare_factors fs pending own) t
      (compare_factors-Shows fs pending own f t m h)

pub every_factor : (f : Factor) → f ∈ score_factors
every_factor Factor.fee = inl refl
every_factor Factor.success = inr (inl refl)
every_factor Factor.age = inr (inr (inl refl))
every_factor Factor.external = inr (inr (inr (inl refl)))
every_factor Factor.community = inr (inr (inr (inr (inl refl))))
every_factor Factor.propagation = inr (inr (inr (inr (inr (inl refl)))))

-- If the two sides differ by more than the tolerance in any one factor, or one of them has no
-- number for it, the checker reports a divergence: before, at and after the proposal's time, and
-- also where the totals agree.
pub decide_checker_action-diverged :
    (p : Pending) (own : Factors) (window now tolerance : ℕ) (g : Grace) (f : Factor)
    → p.exists ≡ true
    → Differs (p.scores f) (own f) tolerance
    → decide_checker_action (some p) own window now (some tolerance) g ≡ CheckerAction.diverged
unfolding decide_checker_action score_divergence
decide_checker_action-diverged p own window now tolerance g f there h =
    ground (arith, compare_factors-Shows score_factors p.scores own f tolerance (every_factor f) h)
