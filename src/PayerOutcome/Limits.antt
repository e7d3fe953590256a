-- ===== src/PayerOutcome/Limits.antt =====
-- The limiter stays small, and blocks after so many notes.
use sigvara.Prelude.Dict.{lookup, insert}
use sigvara.PayerOutcome.{Noted, SeenKeys, drop_expired, make_room, note}
use sigvara.Prelude.{
  [], arith, length, ℕ, ◌+◌, ◌<◌, ◌∷◌, ◌≤◌, Option-cases, if◌then◌else◌, inl, inr, leb,
}
use sigvara.Prelude.Text.{Text}
use sigvara.Prelude.Dict.{lookup}

length-drop_expired : (w now : ℕ) (seen : SeenKeys) → length (drop_expired w now seen) ≤ length seen
unfolding drop_expired
length-drop_expired w now [] = omega arith
length-drop_expired w now ((k, n) ∷ seen) = ground (arith, length-drop_expired w now seen)

length-make_room :
    (max_keys : ℕ) (seen : SeenKeys) → 0 < max_keys → length (make_room max_keys seen) < max_keys
unfolding make_room
length-make_room max_keys [] pos = omega arith
length-make_room max_keys ((k, n) ∷ seen) pos = ground (arith, length-make_room max_keys seen pos)

length-insert :
    (k : Text) (v : Noted) (seen : SeenKeys) → length (insert k v seen) ≤ length seen + 1
unfolding insert
length-insert k v [] = omega arith
length-insert k v ((j, w) ∷ seen) = ground (arith, length-insert k v seen)

kept_for : ℕ → ℕ → ℕ → SeenKeys → SeenKeys
kept_for window_ms max_keys now seen =
    if leb max_keys (length seen)
    then make_room max_keys (drop_expired window_ms now seen)
    else seen

length-kept_for :
    (window_ms max_keys now : ℕ) (seen : SeenKeys)
    → 0 < max_keys
    → length (kept_for window_ms max_keys now seen) < max_keys
unfolding kept_for
length-kept_for window_ms max_keys now seen pos =
    ground (arith, length-make_room max_keys (drop_expired window_ms now seen) pos)

-- However many keys are noted, the limiter holds no more than its number of keys, which is one or
-- more.
pub length-note :
    (window_ms max_keys : ℕ) (key : Text) (now : ℕ) (seen : SeenKeys)
    → 0 < max_keys
    → length (note window_ms max_keys key now seen) ≤ max_keys
unfolding note kept_for
length-note window_ms max_keys key now seen pos =
    let kept : SeenKeys = kept_for window_ms max_keys now seen in
    let room = length-kept_for window_ms max_keys now seen pos in
    let fresh : Noted = record { count = 1; since = now } in
    elim (Option-cases (lookup key kept)) [
      | inl absent ↦ rw (note, absent) (omega (arith, room, length-insert key fresh kept))
      | inr (n, found) ↦
          let more : Noted = record n { count = n.count + 1 } in
          rw (note, found)
            (ground (arith, room, length-insert key fresh kept, length-insert key more kept))
    ]
