-- ===== src/Expiration/Scan.antt =====
-- How the scans of the scheduled jobs end.
use cinema_loyalty_service.Prelude.{
  sym, ◌∙◌, subst, ℕ, zero, suc, ◌<◌, ◌≡◌, refl, ◌⊎◌, inl, inr, Bool, ◌&&◌, Option, none, some,
  List, [], ◌∷◌, arith, ltb, ltb→lt, Bool-cases, take, select,
}
use cinema_loyalty_service.Expiration.{
  batch_size, below, last_id, next_batch, Progress, run_batch, scan, passes,
}
use cinema_loyalty_service.Store.Tx.{Answer-cases, Failure, returned, raised}
use cinema_loyalty_service.Store.Types.{Profile, Db}

-- the ids of a batch are below the cursor
AreBelow : ℕ → List Profile → Type 0
AreBelow c [] = Unit
AreBelow c (p ∷ ps) = (p.id < c) × AreBelow c ps

select-AreBelow :
    (wanted : Profile → Bool) (c : ℕ) (rows : List Profile)
    → AreBelow c (select (λ p. below (some c) p.id && wanted p) rows)
unfolding select AreBelow
select-AreBelow wanted c [] = tt
select-AreBelow wanted c (p ∷ rows) = elim (Bool-cases (ltb p.id c)) [
  | inl low ↦ elim (Bool-cases (wanted p)) [
    | inl fits ↦ rw (low, fits) (ltb→lt _ _ low, select-AreBelow wanted c rows)
    | inr other ↦ rw (low, other) (select-AreBelow wanted c rows)
  ]
  | inr high ↦ rw high (select-AreBelow wanted c rows)
]

take-AreBelow : (c n : ℕ) (rows : List Profile) → AreBelow c rows → AreBelow c (take n rows)
unfolding AreBelow
take-AreBelow c zero rows h = tt
take-AreBelow c (suc n) [] h = tt
take-AreBelow c (suc n) (p ∷ rows) (low, h) = (low, take-AreBelow c n rows h)

last_id-below : (c : ℕ) (p : Profile) (ps : List Profile) → AreBelow c (p ∷ ps) → last_id p ps < c
unfolding AreBelow
last_id-below c p [] (low, h) = low
last_id-below c p (q ∷ qs) (low, h) = last_id-below c q qs h

-- the cursor that a batch leaves
abbrev cursor_of : List Profile → ℕ
cursor_of [] = 0
cursor_of (p ∷ ps) = last_id p ps

-- How a scan ends, pass by pass, from a cursor and a count, with no bound on its passes.
pub data Scanned (wanted : Profile → Bool) (work : Profile → Db → Progress)
    : Option ℕ → ℕ → Db → Progress → Type 0 where
  at_end :
      (cursor : Option ℕ) (total : ℕ) (db : Db)
      → next_batch wanted cursor db ≡ []
      → Scanned wanted work cursor total db (returned total, db)
  stopped :
      (cursor : Option ℕ) (total : ℕ) (db : Db) (e : Failure) (p : Profile) (ps : List Profile)
      → next_batch wanted cursor db ≡ p ∷ ps
      → (run_batch work (p ∷ ps) total db).0 ≡ raised e
      → Scanned wanted work cursor total db (raised e, (run_batch work (p ∷ ps) total db).1)
  continued :
      (cursor : Option ℕ) (total n : ℕ) (db : Db) (p : Profile) (ps : List Profile) (r : Progress)
      → next_batch wanted cursor db ≡ p ∷ ps
      → (run_batch work (p ∷ ps) total db).0 ≡ returned n
      → Scanned wanted work (some (last_id p ps)) n (run_batch work (p ∷ ps) total db).1 r
      → Scanned wanted work cursor total db r

List-cases : {A : Type 0} (xs : List A) → (xs ≡ []) ⊎ ((x : A) × (rest : List A) × (xs ≡ x ∷ rest))
List-cases [] = inl refl
List-cases (x ∷ xs) = inr (x, xs, refl)

module _ (wanted : Profile → Bool) (work : Profile → Db → Progress) where
  -- one pass, and what follows it
  scan_pass :
      (fuel : ℕ) (cursor : Option ℕ) (total : ℕ) (db : Db)
      → ((p : Profile) (ps : List Profile)
          → next_batch wanted cursor db ≡ p ∷ ps
          → (n : ℕ) (d : Db)
          → Scanned wanted work
              (some (last_id p ps))
              n
              d
              (scan wanted work fuel (some (last_id p ps)) n d))
      → Scanned wanted work cursor total db (scan wanted work (suc fuel) cursor total db)
  unfolding scan
  scan_pass fuel cursor total db next = elim (List-cases (next_batch wanted cursor db)) [
    | inl none_left ↦ rw (scan, none_left) (at_end cursor total db none_left)
    | inr (p, ps, q) ↦ elim (Answer-cases (run_batch work (p ∷ ps) total db).0) [
      | inl (e, w) ↦ rw (scan, q, w) (stopped cursor total db e p ps q w)
      | inr (n, w) ↦ rw (scan, q, w) (continued cursor total n db p ps _ q w (next p ps q n _))
    ]
  ]

  -- a fuel above the cursor is enough
  scan_below :
      (fuel c total : ℕ) (db : Db)
      → c < fuel
      → Scanned wanted work (some c) total db (scan wanted work fuel (some c) total db)
  unfolding next_batch
  scan_below zero c total db h = absurd (omega arith)
  scan_below (suc fuel) c total db h = scan_pass fuel (some c) total db (λ p ps q n d.
      let low = last_id-below c p ps (
        subst (AreBelow c) q
          (take-AreBelow c batch_size _ (select-AreBelow wanted c db.profiles))) in
      scan_below fuel (last_id p ps) n d (omega (low, arith)))

-- A scan of the profiles ends with its last batch, or with the first failure of a profile's work,
-- whatever the work does to the database: its fuel is enough for all its passes.
pub scan-Scanned :
    (wanted : Profile → Bool) (work : Profile → Db → Progress) (total : ℕ) (db : Db)
    → Scanned wanted work none total db (scan wanted work (passes wanted db) none total db)
scan-Scanned wanted work total db = elim (List-cases (next_batch wanted none db)) [
  | inl none_left ↦
      rw (none_left, passes)
        (scan_pass wanted work 0 none total db (λ p ps q. absurd (grind (q, none_left, arith))))
  | inr (p, ps, q) ↦
      rw (q, passes)
        (scan_pass wanted work (suc (last_id p ps)) none total db (λ p' ps' q' n d.
          scan_below wanted work (suc (last_id p ps)) (last_id p' ps') n d
            (subst (λ l. cursor_of l < suc (last_id p ps)) (sym q ∙ q') (omega arith))))
]
