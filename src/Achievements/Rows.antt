-- ===== src/Achievements/Rows.antt =====
-- The statements on the table of achievements, and its codes and ids.
use cinema_loyalty_service.Prelude.{
  false, text_eq→eq, subst, inl, inr, true, Bool-cases, Option-cases, find_first,
  find_first-count_where, Text, text_eq, ◌+◌, ◌≤◌, ◌≡◌, refl, List, [], ◌∷◌, arith, if◌then◌else◌,
  update_where, count_where,
}
use cinema_loyalty_service.Achievements.Administration.{
  insert_achievement, update_achievement, deactivate_achievement, Catalogue, has_code, has_id,
  takes_code,
}
use cinema_loyalty_service.Achievements.Catalogue.{AchievementInput, AchievementRow}
use cinema_loyalty_service.Store.Types.{Instant, Uuid}

-- No code and no id stands in two rows, and no id is taken from `next_id` on.
pub record IsCatalogue (c : Catalogue) : Type 0 where
  pub codes : (t : Text) → count_where (has_code t) c.rows ≤ 1
  pub ids : (n : Uuid) → count_where (has_id n) c.rows ≤ 1
  pub fresh : (n : Uuid) → c.next_id ≤ n → count_where (has_id n) c.rows ≡ 0

module _ (n : Uuid) (f : AchievementRow → AchievementRow) where
  -- an update that keeps the ids keeps their number
  count_id-update :
      ((a : AchievementRow) → (f a).id ≡ a.id)
      → (m : Uuid) (rows : List AchievementRow)
      → count_where (has_id m) (update_where (has_id n) f rows) ≡ count_where (has_id m) rows
  unfolding count_where update_where
  count_id-update keeps m [] = refl
  count_id-update keeps m (a ∷ rows) = ground (arith, keeps a, count_id-update keeps m rows)

  -- an update that keeps the codes keeps their number
  count_code-update :
      ((a : AchievementRow) → (f a).input.code ≡ a.input.code)
      → (t : Text) (rows : List AchievementRow)
      → count_where (has_code t) (update_where (has_id n) f rows) ≡ count_where (has_code t) rows
  unfolding count_where update_where
  count_code-update keeps t [] = refl
  count_code-update keeps t (a ∷ rows) = ground (arith, keeps a, count_code-update keeps t rows)

  -- one that gives a row the code `s`
  count_code-set :
      (s : Text)
      → ((a : AchievementRow) → (f a).input.code ≡ s)
      → (t : Text) (rows : List AchievementRow)
      → count_where (has_code t) (update_where (has_id n) f rows)
        ≡ count_where (takes_code n t) rows
          + (if text_eq s t then count_where (has_id n) rows else 0)
  unfolding count_where update_where
  count_code-set s sets t [] = ground arith
  count_code-set s sets t (a ∷ rows) = ground (arith, sets a, count_code-set s sets t rows)

pub count_takes :
    (n : Uuid) (t : Text) (rows : List AchievementRow)
    → count_where (takes_code n t) rows ≤ count_where (has_code t) rows
unfolding count_where
count_takes n t [] = omega arith
count_takes n t (a ∷ rows) = ground (arith, count_takes n t rows)

has_code-same :
    (s t : Text) (rows : List AchievementRow)
    → text_eq s t ≡ true
    → count_where (has_code s) rows ≡ 0
    → count_where (has_code t) rows ≡ 0
has_code-same s t rows same h =
    subst (λ x. count_where (has_code x) rows ≡ 0) (text_eq→eq s t same) h

pub insert_achievement-IsCatalogue :
    (now : Instant) (i : AchievementInput) (c : Catalogue)
    → IsCatalogue c
    → IsCatalogue (insert_achievement now i c).1
unfolding count_where insert_achievement
insert_achievement-IsCatalogue now i c h =
    elim (Option-cases (find_first (has_code i.code) c.rows)) [
      | inr (a, taken) ↦ rw (taken, insert_achievement) h
      | inl free ↦
          rw (free, insert_achievement)
            (added (find_first-count_where (has_code i.code) c.rows free))
    ]
  where
    added :
        count_where (has_code i.code) c.rows ≡ 0
        → IsCatalogue (record {
          rows = record { id = c.next_id; input = i; created_at = now; updated_at = now } ∷ c.rows;
          next_id = c.next_id + 1;
        })
    added none_yet = record {
      codes = λ t. ground (arith, h.codes t, has_code-same i.code t c.rows, none_yet);
      ids = λ n. ground (arith, h.ids n, h.fresh n);
      fresh = λ n above. ground (arith, h.fresh n, above);
    }

pub update_achievement-IsCatalogue :
    (now : Instant) (n : Uuid) (i : AchievementInput) (c : Catalogue)
    → IsCatalogue c
    → IsCatalogue (update_achievement now n i c).1
unfolding update_achievement
update_achievement-IsCatalogue now n i c h = elim (Option-cases (find_first (has_id n) c.rows)) [
  | inl gone ↦ rw (gone, update_achievement) h
  | inr (a, found) ↦ elim (Option-cases (find_first (takes_code n i.code) c.rows)) [
    | inr (b, taken) ↦ rw (found, update_achievement) (rw taken h)
    | inl free ↦
        rw (found, update_achievement)
          (rw free (changed (find_first-count_where (takes_code n i.code) c.rows free)))
  ]
]
  where
    changed :
        count_where (takes_code n i.code) c.rows ≡ 0
        → IsCatalogue (record c {
          rows = update_where (has_id n) (λ x. record x { input = i; updated_at = now }) c.rows;
        })
    changed none_other =
        let set : AchievementRow → AchievementRow = λ x. record x { input = i; updated_at = now } in
        record {
          codes = λ t.
              let moved = count_code-set n set i.code (λ a. refl) t c.rows in
              let others = count_takes n t c.rows in
              elim (Bool-cases (text_eq i.code t)) [
                | inl same ↦
                    let none_here =
                      subst (λ x. count_where (takes_code n x) c.rows ≡ 0)
                        (text_eq→eq i.code t same) none_other in
                    ground (arith, moved, none_here, h.ids n, same)
                | inr other ↦ ground (arith, moved, others, h.codes t, other)
              ];
          ids = λ m. rw (count_id-update n set (λ a. refl) m c.rows) (h.ids m);
          fresh = λ m above. rw (count_id-update n set (λ a. refl) m c.rows) (h.fresh m above);
        }

pub deactivate_achievement-IsCatalogue :
    (now : Instant) (n : Uuid) (c : Catalogue)
    → IsCatalogue c
    → IsCatalogue (deactivate_achievement now n c).1
unfolding deactivate_achievement
deactivate_achievement-IsCatalogue now n c h =
    let set : AchievementRow → AchievementRow =
      λ x. record x { input = record x.input { is_active = false }; updated_at = now } in
    elim (Option-cases (find_first (has_id n) c.rows)) [
      | inl gone ↦ rw (gone, deactivate_achievement) h
      | inr (a, found) ↦
          rw (found, deactivate_achievement)
            (record {
              codes = λ t. rw (count_code-update n set (λ a. refl) t c.rows) (h.codes t);
              ids = λ m. rw (count_id-update n set (λ a. refl) m c.rows) (h.ids m);
              fresh = λ m above. rw (count_id-update n set (λ a. refl) m c.rows) (h.fresh m above);
            })
    ]
