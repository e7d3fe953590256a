-- ===== src/ScanRun/Covers.antt =====
-- A run loses no payment: up to the checkpoint that it leaves, every payment it found is credited.
use sigvara.ScanRun.{Tally, count_credit, credit_group, credit_groups, payment_of, time_at, Payment}
use sigvara.PaymentScan.{Group}
use sigvara.Store.{Store, credit_payment, is_credited}
use sigvara.Store.Credit.{credit_payment-is_credited, is_credited-credit_payment}
use sigvara.Prelude.{
  List, [], ap, inl, inr, none, true, ℕ, ◌++◌, ◌∈◌, ◌∙◌, ◌∷◌, ◌≡◌, ◌⊎◌, Bool, Option-cases, false,
  member-append, refl, subst, sym,
}

-- A payment that the loop is done with: put off, or credited.
abbrev pub IsSettled : Tally → Group → Type 0
IsSettled tally g =
    (g.transfer.block_number ∈ tally.unresolved)
    ⊎ (is_credited tally.store g.transfer.tx_hash g.did_hash g.transfer.from none ≡ true)

count_credit-store :
    (r : Bool × Store) (t : Tally)
    → ((count_credit r t).store ≡ r.1) × ((count_credit r t).unresolved ≡ t.unresolved)
unfolding count_credit
count_credit-store (true, s) t = (refl, refl)
count_credit-store (false, s) t = (refl, refl)

credit_group-cases :
    (times : List (ℕ × ℕ)) (g : Group) (t : Tally)
    → (credit_group times g t
        ≡ record t { unresolved = t.unresolved ++ g.transfer.block_number ∷ [] })
      ⊎ ((ts : ℕ) × ((credit_group times g t).store ≡ (credit_payment (payment_of g ts) t.store).1)
          × ((credit_group times g t).unresolved ≡ t.unresolved))
unfolding credit_group
credit_group-cases times g t = elim (Option-cases (time_at g.transfer.block_number times)) [
  | inl missing ↦ inl (rw (missing, credit_group) refl)
  | inr (ts, found) ↦
      (let counted = count_credit-store (credit_payment (payment_of g ts) t.store) t in
        inr (ts, rw (found, credit_group) counted.0, rw (found, credit_group) counted.1))
]

credit_group-IsSettled :
    (times : List (ℕ × ℕ)) (g : Group) (t : Tally) → IsSettled (credit_group times g t) g
unfolding payment_of
credit_group-IsSettled times g t = elim (credit_group-cases times g t) [
  | inl off ↦ rw off (inl (member-append g.transfer.block_number t.unresolved _ (inr (inl refl))))
  | inr (ts, store, same) ↦ inr (
      ap (λ s. is_credited s g.transfer.tx_hash g.did_hash g.transfer.from none) store
      ∙ credit_payment-is_credited (payment_of g ts) t.store)
]

credit_group-keeps :
    (times : List (ℕ × ℕ)) (g h : Group) (t : Tally)
    → IsSettled t h
    → IsSettled (credit_group times g t) h
credit_group-keeps times g h t settled = elim (credit_group-cases times g t) [
  | inl off ↦ rw off (elim settled [
    | inl put_off ↦ inl (member-append h.transfer.block_number t.unresolved _ (inl put_off))
    | inr credited ↦ inr credited
  ])
  | inr (ts, store, same) ↦ elim settled [
    | inl put_off ↦ inl (rw same put_off)
    | inr credited ↦ inr (
        rw store (
          is_credited-credit_payment (payment_of g ts) t.store h.transfer.tx_hash h.did_hash
            h.transfer.from none credited))
  ]
]

-- The loop is done with every payment of its list, and with those that it was done with before.
pub credit_groups-IsSettled :
    (times : List (ℕ × ℕ)) (groups : List Group) (g : Group) (t : Tally)
    → (g ∈ groups) ⊎ IsSettled t g
    → IsSettled (credit_groups times groups t) g
unfolding credit_groups
credit_groups-IsSettled times [] g t (inl x) = elim x [ ]
credit_groups-IsSettled times [] g t (inr settled) = settled
credit_groups-IsSettled times (h ∷ groups) g t (inl (inl same)) =
    credit_groups-IsSettled times groups g (credit_group times h t) (
      inr
        (subst (IsSettled (credit_group times h t)) (sym same) (credit_group-IsSettled times h t)))
credit_groups-IsSettled times (h ∷ groups) g t (inl (inr later)) =
    credit_groups-IsSettled times groups g (credit_group times h t) (inl later)
credit_groups-IsSettled times (h ∷ groups) g t (inr settled) =
    credit_groups-IsSettled times groups g (credit_group times h t)
      (inr (credit_group-keeps times h g t settled))

-- The stores of the loop are reached by crediting.
-- The stores that crediting payments reaches from a store.
pub data Credits (s : Store) : Store → Type 0 where
  none_yet : Credits s s
  one_more : {t : Store} → Credits s t → (p : Payment) → Credits s (credit_payment p t).1

pub credit_groups-Credits :
    (times : List (ℕ × ℕ)) (groups : List Group) (s : Store) (t : Tally)
    → Credits s t.store
    → Credits s (credit_groups times groups t).store
unfolding credit_groups
credit_groups-Credits times [] s t r = r
credit_groups-Credits times (g ∷ groups) s t r =
    credit_groups-Credits times groups s (credit_group times g t)
      (elim (credit_group-cases times g t) [
        | inl off ↦ rw off r
        | inr (ts, store, same) ↦ rw store (one_more r (payment_of g ts))
      ])
