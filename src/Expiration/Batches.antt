-- ===== src/Expiration/Batches.antt =====
-- The rows that a pass of a scan reads.
use cinema_loyalty_service.Prelude.{
  ℕ, zero, suc, ◌<◌, ◌≡◌, ◌⊎◌, inl, inr, Bool, true, List, [], ◌∷◌, Bool-cases, take, select,
}
use cinema_loyalty_service.Expiration.{last_id}
use cinema_loyalty_service.Expiration.Work.{Has, ids}
use cinema_loyalty_service.Store.Types.{Profile}

abbrev pub AllBelow : ℕ → List ℕ → Type 0
AllBelow c [] = Unit
AllBelow c (n ∷ ns) = (n < c) × AllBelow c ns

-- The ids descend, as `orderBy: { id: 'desc' }` reads them.
abbrev pub Descends : List ℕ → Type 0
Descends [] = Unit
Descends (n ∷ ns) = AllBelow n ns × Descends ns

Has-AllBelow :
    (c : ℕ) (r : Profile) (rows : List Profile) → Has r rows → AllBelow c (ids rows) → r.id < c
Has-AllBelow c r [] h b = absurd h
Has-AllBelow c r (p ∷ rows) (inl e) (low, b) = rw e low
Has-AllBelow c r (p ∷ rows) (inr h) (low, b) = Has-AllBelow c r rows h b

-- every row of a batch is above an id
unfoldable pub AreAbove : ℕ → List Profile → Type 0
AreAbove c [] = Unit
AreAbove c (p ∷ ps) = (c < p.id) × AreAbove c ps

pub last_id-above :
    (c : ℕ) (p : Profile) (ps : List Profile) → AreAbove c (p ∷ ps) → c < last_id p ps
unfolding AreAbove
last_id-above c p [] (low, h) = low
last_id-above c p (q ∷ qs) (low, h) = last_id-above c q qs h

-- A row of a batch is a row of the table.
pub take-select-Has :
    (fits_in : Profile → Bool) (r : Profile) (n : ℕ) (rows : List Profile)
    → Has r (take n (select fits_in rows))
    → Has r rows
unfolding select
take-select-Has fits_in r zero rows h = absurd h
take-select-Has fits_in r (suc n) [] h = absurd h
take-select-Has fits_in r (suc n) (p ∷ rows) h = elim (Bool-cases (fits_in p)) [
  | inr out ↦ inr (take-select-Has fits_in r (suc n) rows (rw (out, select) at h))
  | inl also ↦ elim (rw (also, select) at h) as (λ x. Has r (p ∷ rows)) [
    | inl e ↦ inl e
    | inr there ↦ inr (take-select-Has fits_in r n rows there)
  ]
]

module _ (fits_in : Profile → Bool) (r : Profile) (wished : fits_in r ≡ true) where
  -- A row that fits is in the batch, or below all of it.
  pub take-select :
      (n : ℕ) (rows : List Profile)
      → Descends (ids rows)
      → Has r rows
      → Has r (take n (select fits_in rows)) ⊎ AreAbove r.id (take n (select fits_in rows))
  unfolding select AreAbove
  take-select zero rows d h = inr tt
  take-select (suc n) [] d h = absurd h
  take-select (suc n) (p ∷ rows) d (inl e) =
      let also : fits_in p ≡ true = rw (← e) wished in inl (rw also (inl e))
  take-select (suc n) (p ∷ rows) (b, d) (inr h) = elim (Bool-cases (fits_in p)) [
    | inr out ↦ rw out (take-select (suc n) rows d h)
    | inl also ↦ elim (take-select n rows d h) [
      | inl there ↦ inl (rw also (inr there))
      | inr above ↦ inr (rw also (Has-AllBelow p.id r rows h b, above))
    ]
  ]

  -- A batch is empty only if no row fits.
  pub take-select_nonempty :
      (n : ℕ) (rows : List Profile) → Has r rows → take (suc n) (select fits_in rows) ≡ [] → ⊥
  unfolding select
  take-select_nonempty n [] h e = h
  take-select_nonempty n (p ∷ rows) (inl e) empty =
      let also : fits_in p ≡ true = rw (← e) wished in let x = rw also at empty in cc
  take-select_nonempty n (p ∷ rows) (inr h) empty = elim (Bool-cases (fits_in p)) [
    | inl also ↦ let x = rw also at empty in cc
    | inr out ↦ take-select_nonempty n rows h (rw out at empty)
  ]
