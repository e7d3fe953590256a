-- ===== src/PaymentCheck/Legs.antt =====
-- What a verified payment promises of its legs.
use sigvara.PaymentCheck.{
  Ethers, Leg, insert_leg, legs_of, senders_of, sort_legs, total, settle, Read, Verified, Verdict,
  check_receipt, verify_payment, transfers_to, Settings, Receipt,
}
use sigvara.PaymentScan.{counts_as_payment}
use sigvara.Prelude.{
  List, [], arith, keep, refl, ℕ, ◌+◌, ◌∷◌, ◌≡◌, Bool, inl, true, ◌∈◌, ◌⊎◌, Option-cases, inr, none,
  some, subst, ◌<◌, ◌≤◌,
}
use sigvara.Prelude.Text.{Text}

total-insert_leg : (x : Leg) (ys : List Leg) → total (insert_leg x ys) ≡ x.amount + total ys
unfolding insert_leg total
total-insert_leg x [] = refl
total-insert_leg x (y ∷ ys) = ground (arith, total-insert_leg x ys)

total-sort_legs : (sorted xs : List Leg) → total (sort_legs sorted xs) ≡ total sorted + total xs
unfolding sort_legs total
total-sort_legs sorted [] = omega arith
total-sort_legs sorted (x ∷ xs) =
    omega (arith, total-sort_legs (insert_leg x sorted) xs, total-insert_leg x sorted)

-- The legs of a payment add up to what its senders paid who each paid enough.
pub total-legs_of :
    (e : Ethers) (credits : List Leg) (min_amount : ℕ)
    → total (legs_of e credits min_amount)
      ≡ total (keep (λ s. counts_as_payment s.amount min_amount) (senders_of e credits))
unfolding legs_of total
total-legs_of e credits min_amount = omega (
  arith,
  total-sort_legs [] (keep (λ s. counts_as_payment s.amount min_amount) (senders_of e credits)),
)

insert_leg-member : (l x : Leg) (ys : List Leg) → l ∈ insert_leg x ys → (l ≡ x) ⊎ (l ∈ ys)
unfolding insert_leg
insert_leg-member l x [] h = h
insert_leg-member l x (y ∷ ys) h = ground (arith, insert_leg-member l x ys)

sort_legs-member :
    (l : Leg) (sorted xs : List Leg) → l ∈ sort_legs sorted xs → (l ∈ sorted) ⊎ (l ∈ xs)
unfolding sort_legs
sort_legs-member l sorted [] h = inl h
sort_legs-member l sorted (x ∷ xs) h =
    ground (arith, sort_legs-member l (insert_leg x sorted) xs h, insert_leg-member l x sorted)

keep-member : (l : Leg) (p : Leg → Bool) (xs : List Leg) → l ∈ keep p xs → p l ≡ true
keep-member l p [] h = elim h [ ]
keep-member l p (x ∷ xs) h = ground (arith, keep-member l p xs)

settle-verified :
    (e : Ethers) (legs : List Leg) (block : ℕ) (tx : Text) (time : Read ℕ) (v : Verified)
    → settle e legs block tx time ≡ Verdict.verified v
    → (v.legs ≡ legs) × (v.amount ≡ total legs) × (v.block_number ≡ block)
unfolding settle
settle-verified e [] block tx time v h = ground (arith, h)
settle-verified e (l ∷ legs) block tx Read.read_error v h = ground (arith, h)
settle-verified e (l ∷ legs) block tx (Read.answer none) v h = ground (arith, h)
settle-verified e (l ∷ legs) block tx (Read.answer (some t)) v h = ground (arith, h)

check_receipt-verified :
    (e : Ethers) (cfg : Settings) (asset tx pay_to : Text) (r : Receipt) (head : ℕ) (time : Read ℕ)
    (v : Verified)
    → check_receipt e cfg asset tx pay_to r (Read.answer (some head)) time ≡ Verdict.verified v
    → (r.succeeded ≡ true)
      × (cfg.min_confirmations + r.block_number ≤ head + 1)
      × (settle e
            (legs_of e (transfers_to e r.logs asset pay_to) cfg.min_amount)
            r.block_number
            tx
            time
          ≡ Verdict.verified v)
unfolding check_receipt
check_receipt-verified e cfg asset tx pay_to r head time v h = ground (arith, h)

-- A payment that is verified settled in a transaction that succeeded and had the confirmations
-- asked for at the head that was read; its amount is the sum of its legs, and each leg moved
-- something and at least the least amount.
pub verify_payment-verified :
    (e : Ethers) (cfg : Settings) (tx pay_to : Text) (r : Receipt) (head : ℕ) (time : Read ℕ)
    (v : Verified)
    → verify_payment e cfg tx pay_to (Read.answer (some r)) (Read.answer (some head)) time
      ≡ Verdict.verified v
    → (r.succeeded ≡ true)
      × (cfg.min_confirmations + v.block_number ≤ head + 1)
      × (v.amount ≡ total v.legs)
      × ((l : Leg) → l ∈ v.legs → (0 < l.amount) × (cfg.min_amount ≤ l.amount))
unfolding verify_payment legs_of
verify_payment-verified e cfg tx pay_to r head time v h = elim (Option-cases cfg.asset) [
  | inl no_asset ↦ ground (arith, h, no_asset)
  | inr (asset, known) ↦
      let credits : List Leg = transfers_to e r.logs asset pay_to in
      let checked =
        check_receipt-verified e cfg asset tx pay_to r head time v (ground (arith, h, known)) in
      let settled =
        settle-verified e (legs_of e credits cfg.min_amount) r.block_number tx time v checked.2 in
      (
        checked.0,
        omega (arith, checked.1, settled.2),
        rw settled.0 settled.1,
        λ l at.
            let inside =
              sort_legs-member l []
                (keep (λ s. counts_as_payment s.amount cfg.min_amount) (senders_of e credits))
                (subst (λ ls. l ∈ ls) settled.0 at) in
            let counts =
              keep-member l (λ s. counts_as_payment s.amount cfg.min_amount)
                (senders_of e credits) in
            ground (arith, inside, counts),
      )
]
