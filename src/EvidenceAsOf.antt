-- ===== src/EvidenceAsOf.antt =====
-- oracle/evidence-as-of.js: the evidence that a proposal was made of, found by its root.
pub mod Matches
mod Tests
use sigvara.Event.{Event, PayerOutcome}
use sigvara.Merkle.{Ethers}
use sigvara.Merkle.Leaves.{Abi, root_for}
use sigvara.Prelude.{
  Bool, List, Option, [], false, if◌then◌else◌, keep, leb, ltb, map, min, none, some, true, ℕ, ◌++◌,
  ◌||◌, ◌∷◌,
}
use sigvara.Prelude.Text.{Text, lower, text_eq}

pub record AsOf : Type 0 where
  pub events : List Event
  pub matched_root : Bool

-- `options`: when an event started to count, other cuts, and the order of storing.
pub record Options : Type 0 where
  pub eligible_at : Event → Option ℕ
  pub cuts : List ℕ
  pub stored : Option (List Event)

-- `eligibleAt(e) <= cut`; `none` is infinite.
abbrev pub counts_by : Option ℕ → ℕ → Bool
counts_by none cut = false
counts_by (some t) cut = leb t cut

pub counted_by : Options → List Event → ℕ → List Event
counted_by o events cut = keep (λ e. counts_by (o.eligible_at e) cut) events

-- `signedAfter`
pub signed_after : ℕ → Event → Bool
signed_after at_ms e = elim e.payer_outcome [ none ↦ false | some p ↦ ltb at_ms p.accepted_at ]

-- `withoutPayerOutcome`
pub without_payer_outcome : Event → Event
without_payer_outcome e = record e { payer_outcome = none; success = none }

pub any_signed : ℕ → List Event → Bool
unfolding signed_after
any_signed at_ms [] = false
any_signed at_ms (e ∷ events) = signed_after at_ms e || any_signed at_ms events

pub unset : ℕ → List Event → List Event
unfolding signed_after without_payer_outcome
unset at_ms events = map (λ e. if signed_after at_ms e then without_payer_outcome e else e) events

-- The readings of a list at a cut, and all readings in the order in which they are tried.
pub readings_at : Options → ℕ → List Event → ℕ → List (List Event)
unfolding counted_by any_signed unset
readings_at o at_ms list cut =
    let set = counted_by o list cut in
    if any_signed at_ms set then set ∷ unset at_ms set ∷ [] else set ∷ []

pub readings_by : Options → ℕ → List Event → List ℕ → List (List Event)
unfolding readings_at
readings_by o at_ms list [] = []
readings_by o at_ms list (cut ∷ cuts) =
    readings_at o at_ms list cut ++ readings_by o at_ms list cuts

pub readings : Options → List Event → ℕ → List (List Event)
unfolding readings_by
readings o events at_ms =
    let cuts = at_ms ∷ keep (λ c. ltb c at_ms) o.cuts in
    elim o.stored [
      | none ↦ readings_by o at_ms events cuts
      | some stored ↦ readings_by o at_ms events cuts ++ readings_by o at_ms stored cuts
    ]

-- The cut of the answer when nothing matches.
pub last_cut : List ℕ → ℕ → ℕ
last_cut [] at_ms = at_ms
last_cut (c ∷ cuts) at_ms = min at_ms c

module _ (e : Ethers) (abi : Abi) where
  -- The first reading with the root; the outer `none` is an event without a leaf.
  pub first_match : Text → List (List Event) → Option (Option (List Event))
  unfolding lower text_eq
  first_match committed [] = some none
  first_match committed (reading ∷ more) =
      let rest = first_match committed more in
      elim (root_for e abi reading) [
        | none ↦ none
        | some root ↦ if text_eq (lower root) (lower committed) then some (some reading) else rest
      ]

  pub unmatched : Options → List Event → ℕ → AsOf
  unfolding counted_by last_cut
  unmatched o events at_ms = record {
    events = counted_by o events (last_cut o.cuts at_ms);
    matched_root = false;
  }

  pub answer_of : Options → List Event → ℕ → Option (Option (List Event)) → Option AsOf
  unfolding unmatched
  answer_of o events at_ms none = none
  answer_of o events at_ms (some none) = some (unmatched o events at_ms)
  answer_of o events at_ms (some (some reading)) =
      some (record { events = reading; matched_root = true })

  -- `evidenceAsOf`; a root that is empty is none.
  pub evidence_as_of : List Event → ℕ → Option Text → Options → Option AsOf
  unfolding first_match readings answer_of
  evidence_as_of events at_ms none o = some (unmatched o events at_ms)
  evidence_as_of events at_ms (some []) o = some (unmatched o events at_ms)
  evidence_as_of events at_ms (some (c ∷ s)) o =
      answer_of o events at_ms (first_match (c ∷ s) (readings o events at_ms))
