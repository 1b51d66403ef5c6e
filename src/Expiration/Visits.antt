-- ===== src/Expiration/Visits.antt =====
-- What a scan leaves to be done.
use cinema_loyalty_service.Prelude.{
  sym, ap, subst, false, ◌&&◌, Option, some, lt→ltb, ℕ, ◌+◌, ◌≡◌, refl, ◌∙◌, ◌⊎◌, inl, inr, Bool,
  true, List, [], ◌∷◌, arith, Bool-cases,
}
use cinema_loyalty_service.Expiration.{batch_size, below, next_batch, last_id, Progress, run_batch}
use cinema_loyalty_service.Expiration.Scan.{Scanned, at_end, stopped, continued}
use cinema_loyalty_service.Expiration.Work.{Has, AreUnique, ids}
use cinema_loyalty_service.Store.Tx.{returned, Answer-cases}
use cinema_loyalty_service.Store.Types.{Uuid, Profile, Db}
use cinema_loyalty_service.Expiration.Batches.{
  Descends, AreAbove, last_id-above, take-select-Has, take-select, take-select_nonempty,
}

-- What the work on a user leaves: the ids in their places, one row for each user, and to do only what
-- was to do for other users.
-- A condition on each row is kept.
pub record Spares (Row : Profile → Type 0) (todo : Db → Profile → Bool) (u : Uuid) (db later : Db)
    : Type 0 where
  pub rows : ((r : Profile) → Has r later.profiles → Row r)
  pub same_ids : ids later.profiles ≡ ids db.profiles
  pub unique : AreUnique later.profiles
  pub others :
      (r : Profile)
      → Has r later.profiles
      → todo later r ≡ true
      → Has r db.profiles × (todo db r ≡ true) × (r.user_id ≡ u → ⊥)

-- What a whole batch leaves.
record BatchLeaves (Row : Profile → Type 0) (todo : Db → Profile → Bool) (batch : List Profile)
    (db later : Db) : Type 0 where
  rows : (r : Profile) → Has r later.profiles → Row r
  same_ids : ids later.profiles ≡ ids db.profiles
  unique : AreUnique later.profiles
  others :
      (r : Profile)
      → Has r later.profiles
      → todo later r ≡ true
      → Has r db.profiles
        × (todo db r ≡ true)
        × ((b : Profile) → Has b batch → r.user_id ≡ b.user_id → ⊥)

module _ (wanted : Profile → Bool) (work : Profile → Db → Progress) (todo : Db → Profile → Bool)
    (Row : Profile → Type 0) (asked : (d : Db) (r : Profile) → todo d r ≡ true → wanted r ≡ true)
    (leaves : (p : Profile) (d : Db) (n : ℕ)
      → Row p
      → ((r : Profile) → Has r d.profiles → Row r)
      → AreUnique d.profiles
      → (work p d).0 ≡ returned n
      → Spares Row todo p.user_id d (work p d).1) where
  run_batch-BatchLeaves :
      (batch : List Profile) (total n : ℕ) (db : Db)
      → ((r : Profile) → Has r batch → Row r)
      → ((r : Profile) → Has r db.profiles → Row r)
      → AreUnique db.profiles
      → (run_batch work batch total db).0 ≡ returned n
      → BatchLeaves Row todo batch db (run_batch work batch total db).1
  unfolding run_batch
  run_batch-BatchLeaves [] total n db all rows unique won = record {
    rows = rows;
    same_ids = refl;
    unique = unique;
    others = λ r h w. (h, w, λ b x e. x);
  }
  run_batch-BatchLeaves (p ∷ ps) total n db all rows unique won =
      elim (Answer-cases (work p db).0) [
        | inl (e, q) ↦ let x = rw (q, run_batch) at won in absurd (ground (arith, x))
        | inr (m, q) ↦
            let d = (work p db).1 in
            let one = leaves p db m (all p (inl refl)) rows unique q in
            let rest =
              run_batch-BatchLeaves ps (total + m) n d (λ r h. all r (inr h)) one.rows one.unique
                (rw (q, run_batch) at won) in
            rw (q, run_batch)
              (record {
                rows = rest.rows;
                same_ids = rest.same_ids ∙ one.same_ids;
                unique = rest.unique;
                others = λ r h w.
                    let (before, due, far) = rest.others r h w in
                    let (old, first, apart) = one.others r before due in
                    (
                      old,
                      first,
                      λ b x e. elim x [
                        | inl is_p ↦ apart (e ∙ ap Profile.user_id is_p)
                        | inr further ↦ far b further e
                      ],
                    );
              })
      ]

  -- the rows at a cursor: what is still to do is below it
  pub record AreVisited (cursor : Option ℕ) (db : Db) : Type 0 where
    pub rows : (r : Profile) → Has r db.profiles → Row r
    pub unique : AreUnique db.profiles
    pub descends : Descends (ids db.profiles)
    pub left : (r : Profile) → Has r db.profiles → todo db r ≡ true → below cursor r.id ≡ true

  batch_visited :
      (cursor : Option ℕ) (total n : ℕ) (db : Db) (p : Profile) (ps : List Profile)
      → AreVisited cursor db
      → next_batch wanted cursor db ≡ p ∷ ps
      → (run_batch work (p ∷ ps) total db).0 ≡ returned n
      → AreVisited (some (last_id p ps)) (run_batch work (p ∷ ps) total db).1
  unfolding next_batch
  batch_visited cursor total n db p ps v batch won =
      let b =
        run_batch-BatchLeaves (p ∷ ps) total n db
          (λ r h. v.rows r (
            take-select-Has (λ x. below cursor x.id && wanted x) r batch_size db.profiles
              (subst (Has r) (sym batch) h)))
          v.rows v.unique won in
      record {
        unique = b.unique;
        rows = b.rows;
        descends = subst Descends (sym b.same_ids) v.descends;
        left = λ r h w.
            let (old, before, apart) = b.others r h w in
            let fits_in : (below cursor r.id && wanted r) ≡ true =
              rw (v.left r old before, asked db r before) refl in
            elim (subst (λ l. Has r l ⊎ AreAbove r.id l) batch
              (take-select (λ x. below cursor x.id && wanted x) r fits_in batch_size db.profiles
                v.descends old)) [
                  | inl there ↦ absurd (apart r there refl)
                  | inr above ↦ lt→ltb _ _ (last_id-above r.id p ps above)
                ];
      }

  end_visited :
      (cursor : Option ℕ) (db : Db)
      → AreVisited cursor db
      → next_batch wanted cursor db ≡ []
      → (r : Profile) → Has r db.profiles
      → todo db r ≡ false
  unfolding next_batch
  end_visited cursor db v none_left r h = elim (Bool-cases (todo db r)) [
    | inr idle ↦ idle
    | inl w ↦
        let fits_in : (below cursor r.id && wanted r) ≡ true =
          rw (v.left r h w, asked db r w) refl in
        absurd (
          take-select_nonempty (λ x. below cursor x.id && wanted x) r fits_in 499 db.profiles h
            none_left)
  ]

  -- A scan that ends leaves nothing to do.
  pub Scanned-visits :
      (cursor : Option ℕ) (total n : ℕ) (db : Db) (end : Progress)
      → Scanned wanted work cursor total db end
      → AreVisited cursor db
      → end.0 ≡ returned n
      → (r : Profile) → Has r end.1.profiles
      → todo end.1 r ≡ false
  Scanned-visits cursor total n db end (at_end _ _ _ none_left) v won r h =
      end_visited cursor db v none_left r h
  Scanned-visits cursor total n db end (stopped _ _ _ e p ps batch lost) v won r h = absurd (cc)
  Scanned-visits cursor total n db end (continued _ _ m _ p ps _ batch ran more) v won r h =
      Scanned-visits (some (last_id p ps)) m n _ end more
        (batch_visited cursor total m db p ps v batch ran) won r h
