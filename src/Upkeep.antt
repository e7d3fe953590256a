-- ===== src/Upkeep.antt =====
-- oracle/store.js: flags, the cooldowns of attesters, the divergences that a checker recorded, and
-- the pruning of each and of the payment events. Each map is passed in and returned.
pub mod Pruning
pub mod Cooldowns
mod Tests
use sigvara.Prelude.{
  ℕ, Bool, List, Option, [], drop, false, if◌then◌else◌, keep, leb, length, none, some, take, true,
  ◌++◌, ◌+◌, ◌-◌, ◌==◌, ◌||◌, ◌∷◌,
}
use sigvara.Prelude.Text.{Text}
use sigvara.Payments.{HalfLife, decay_weight}
use sigvara.EpochPolicy.{Factor}
use sigvara.Prelude.Dict.{lookup, insert, erase}
use sigvara.Event.{Event}

-- Times of flags, by agent.
abbrev pub Flags : Type 0
Flags = List (Text × List ℕ)

-- `map.get(key) ?? []`
abbrev pub list_of {ℓ} : {A : Type ℓ} → Option (List A) → List A
list_of none = []
list_of (some list) = list

pub record Resolved : Type 0 where
  pub before : ℕ
  pub after : ℕ
  pub resolved : ℕ

-- `resolveFlags`; a count of `none` is one that is no finite number or is negative.
pub resolve_flags : Text → Option ℕ → Flags → Resolved × Flags
unfolding lookup insert erase
resolve_flags did count flags =
    let list = list_of (lookup did flags) in
    let before = length list in
    let unchanged : Resolved × Flags =
      (record { before = before; after = before; resolved = 0 }, flags) in
    elim count [
      | none ↦ unchanged
      | some n ↦
          let after = before - n in
          if n == 0 then unchanged else (
            record { before = before; after = after; resolved = before - after },
            if after == 0 then erase did flags else insert did (take after list) flags,
          )
    ]

-- `addFlag`
pub add_flag : Text → ℕ → Flags → ℕ × Flags
unfolding lookup insert
add_flag did now flags =
    let list = list_of (lookup did flags) ++ now ∷ [] in (length list, insert did list flags)

-- `flagCount`
pub flag_count : Text → Flags → ℕ
unfolding lookup
flag_count did flags = length (list_of (lookup did flags))

-- The loop that every pruning runs: lists lose the entries that fail a test, and empty ones go.
unfoldable pub prune_lists {ℓ} :
    {A : Type ℓ} → (A → Bool) → List (Text × List A) → ℕ × List (Text × List A)
prune_lists test [] = (0, [])
prune_lists test ((did, list) ∷ m) =
    let (dropped, rest) = prune_lists test m in
    let kept = keep test list in
    ((length list - length kept) + dropped, elim kept [ [] ↦ rest | x ∷ xs ↦ (did, x ∷ xs) ∷ rest ])

module _ (hl : HalfLife) where
  -- `decayedFlagCount`, in parts of the weights' scale.
  pub flag_weights : ℕ → ℕ → List ℕ → ℕ
  flag_weights now half_life_ms [] = 0
  flag_weights now half_life_ms (ts ∷ list) =
      decay_weight hl (now - ts) half_life_ms + flag_weights now half_life_ms list

  pub decayed_flag_count : Text → ℕ → ℕ → Flags → ℕ
  unfolding lookup flag_weights
  decayed_flag_count did now half_life_ms flags =
      flag_weights now half_life_ms (list_of (lookup did flags))

  -- `pruneFlags`, of a least weight in parts of the weights' scale.
  pub prune_flags : ℕ → ℕ → ℕ → Flags → Flags
  unfolding prune_lists
  prune_flags min_weight now half_life_ms flags =
      (prune_lists (λ ts. leb min_weight (decay_weight hl (now - ts) half_life_ms)) flags).1

-- `prunePaymentEvents`, of the whole number of milliseconds in `halfLifeMs * log2(1 / minWeight)`.
unfoldable pub prune_payment_events :
    ℕ → ℕ → ℕ → List (Text × List Event) → ℕ × List (Text × List Event)
unfolding prune_lists
prune_payment_events half_life_ms horizon now events =
    if half_life_ms == 0 then (0, events) else prune_lists (λ e. leb (now - e.ts) horizon) events

-- `attestCooldownKey`
pub attest_cooldown_key : Text → Text → Text
attest_cooldown_key attester did = attester ++ b':' ∷ did

pub record Allowance : Type 0 where
  pub allowed : Bool
  pub remaining_ms : ℕ

-- `checkAttestCooldown`; the time of an attestation is never 0.
pub check_attest_cooldown : ℕ → Text → ℕ → List (Text × ℕ) → Allowance
unfolding lookup
check_attest_cooldown cooldown_ms key now cooldowns =
    let free : Allowance = record { allowed = true; remaining_ms = 0 } in
    elim (lookup key cooldowns) [
      | none ↦ free
      | some last ↦
          if last == 0 || leb cooldown_ms (now - last)
          then free
          else record { allowed = false; remaining_ms = cooldown_ms - (now - last) }
    ]

-- `recordAttestation`
pub record_attestation : Text → ℕ → List (Text × ℕ) → List (Text × ℕ)
unfolding insert
record_attestation key now cooldowns = insert key now cooldowns

-- `pruneExpiredCooldowns`
pub prune_expired_cooldowns : ℕ → ℕ → List (Text × ℕ) → List (Text × ℕ)
prune_expired_cooldowns cooldown_ms now [] = []
prune_expired_cooldowns cooldown_ms now ((key, ts) ∷ m) =
    let rest = prune_expired_cooldowns cooldown_ms now m in
    if leb cooldown_ms (now - ts) then rest else (key, ts) ∷ rest

abbrev pub max_divergences_per_agent : ℕ
max_divergences_per_agent = 50

pub record Recorded : Type 0 where
  pub at : ℕ
  pub proposed_at : ℕ
  pub pending_total : ℕ
  pub own_total : ℕ
  pub factors : List (Factor × ℕ × ℕ)
  pub evidence : Option Text

abbrev pub Divergences : Type 0
Divergences = List (Text × List Recorded)

-- `getDivergences`
pub get_divergences : Text → Divergences → List Recorded
unfolding lookup
get_divergences did divergences = list_of (lookup did divergences)

-- `list.slice(-n)`
abbrev pub last_of {ℓ} : {A : Type ℓ} → ℕ → List A → List A
last_of n list = drop (length list - n) list

-- `recordDivergence`
pub record_divergence : Text → Recorded → Divergences → Divergences
unfolding get_divergences insert
record_divergence did d divergences =
    insert did (last_of max_divergences_per_agent (get_divergences did divergences ++ d ∷ []))
      divergences

-- `pruneDivergences`
pub prune_divergences : ℕ → ℕ → Divergences → ℕ × Divergences
unfolding prune_lists
prune_divergences max_age_ms now divergences =
    prune_lists (λ d. leb (now - d.at) max_age_ms) divergences

-- `forgetAgent`
pub forget_agent : Text → Divergences → Divergences
unfolding erase
forget_agent did divergences = erase did divergences
