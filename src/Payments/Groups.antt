-- ===== src/Payments/Groups.antt =====
-- Grouping by payer loses nothing: what `byPayer` holds is what the events add up to.
use sigvara.Prelude.{ℕ, ◌+◌, ◌≤◌, ◌≡◌, refl, List, [], ◌∷◌, if◌then◌else◌, arith}
use sigvara.Prelude.Text.{Text, lower, text_eq, text_eq_sound, text_eq_self}
use sigvara.Event.{Event}
use sigvara.Payments.{
  Account, Accounts, no_account, update, HalfLife, decayed_amount, decayed_volume, outcome_weight,
  success_weight_of, add_event, by_payer_from, by_payer,
}

unfoldable pub total_volume : Accounts → ℕ
total_volume [] = 0
total_volume ((_, a) ∷ m) = a.volume + total_volume m

-- `map.get(key)`, with an empty account for a payer that is not there.
unfoldable pub account_of : Text → Accounts → Account
account_of key [] = no_account
account_of key ((k, a) ∷ m) = if text_eq k key then a else account_of key m

-- The accounts' successes are among their outcomes.
abbrev pub IsSound : Accounts → Type 0
IsSound [] = Unit
IsSound ((_, a) ∷ m) = (a.success_weight ≤ a.weight) × IsSound m

account_of-update :
    (key k : Text) (f : Account → Account) (m : Accounts)
    → account_of key (update k f m)
      ≡ (if text_eq k key then f (account_of k m) else account_of key m)
unfolding update account_of
account_of-update key k f [] = refl
account_of-update key k f ((j, a) ∷ m) = ground (
  arith,
  account_of-update key k f m,
  text_eq_sound j k,
  text_eq_sound j key,
  text_eq_sound k key,
  text_eq_self k,
)

module _ (hl : HalfLife) (half_life now : ℕ) where
  total_volume-update :
      (e : Event) (key : Text) (m : Accounts)
      → total_volume (update key (add_event hl half_life now e) m)
        ≡ total_volume m + decayed_amount hl half_life now e
  unfolding total_volume update add_event
  total_volume-update e key [] = omega arith
  total_volume-update e key ((k, a) ∷ m) = ground (arith, total_volume-update e key m)

  total_volume-by_payer_from :
      (m : Accounts) (es : List Event)
      → total_volume (by_payer_from hl m es half_life now)
        ≡ total_volume m + decayed_volume hl es half_life now
  unfolding by_payer_from decayed_volume
  total_volume-by_payer_from m [] = omega arith
  total_volume-by_payer_from m (e ∷ es) =
      let added = update (lower e.payer) (add_event hl half_life now e) m in
      omega (arith, total_volume-by_payer_from added es, total_volume-update e (lower e.payer) m)

  -- The volumes of the payers add up to the decayed volume of the events.
  pub total_volume-by_payer :
      (es : List Event)
      → total_volume (by_payer hl es half_life now) ≡ decayed_volume hl es half_life now
  unfolding by_payer total_volume
  total_volume-by_payer es = omega (arith, total_volume-by_payer_from [] es)

  pub success_weight_of-le :
      (e : Event) → success_weight_of hl half_life now e ≤ outcome_weight hl half_life now e
  unfolding success_weight_of outcome_weight
  success_weight_of-le e = ground arith

  update-IsSound :
      (e : Event) (key : Text) (m : Accounts)
      → IsSound m
      → IsSound (update key (add_event hl half_life now e) m)
  unfolding update add_event
  update-IsSound e key [] h = (omega (arith, success_weight_of-le e), tt)
  update-IsSound e key ((k, a) ∷ m) h =
      ground (arith, update-IsSound e key m h.1, success_weight_of-le e)

  by_payer_from-IsSound :
      (m : Accounts) (es : List Event) → IsSound m → IsSound (by_payer_from hl m es half_life now)
  unfolding by_payer_from
  by_payer_from-IsSound m [] h = h
  by_payer_from-IsSound m (e ∷ es) h =
      by_payer_from-IsSound (update (lower e.payer) (add_event hl half_life now e) m) es
        (update-IsSound e (lower e.payer) m h)

  pub by_payer-IsSound : (es : List Event) → IsSound (by_payer hl es half_life now)
  unfolding by_payer
  by_payer-IsSound es = by_payer_from-IsSound [] es tt

  -- The part of the decayed volume that one payer made.
  unfoldable pub volume_from : Text → List Event → ℕ
  volume_from key [] = 0
  volume_from key (e ∷ es) =
      (if text_eq (lower e.payer) key then decayed_amount hl half_life now e else 0)
      + volume_from key es

  account_of-by_payer_from :
      (key : Text) (m : Accounts) (es : List Event)
      → (account_of key (by_payer_from hl m es half_life now)).volume
        ≡ (account_of key m).volume + volume_from key es
  unfolding by_payer_from volume_from add_event
  account_of-by_payer_from key m [] = omega arith
  account_of-by_payer_from key m (e ∷ es) =
      let add = add_event hl half_life now e in
      ground (
        arith,
        account_of-by_payer_from key (update (lower e.payer) add m) es,
        account_of-update key (lower e.payer) add m,
        text_eq_sound (lower e.payer) key,
      )

  -- The account of a payer holds the decayed volume of the events that it paid, in whatever case
  -- its address is written, and of no others.
  pub volume-account_of-by_payer :
      (key : Text) (es : List Event)
      → (account_of key (by_payer hl es half_life now)).volume ≡ volume_from key es
  unfolding by_payer account_of
  volume-account_of-by_payer key es = omega (arith, account_of-by_payer_from key [] es)
