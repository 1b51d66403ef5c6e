-- ===== src/Achievements/Answers.antt =====
-- What administrators are answered.
use cinema_loyalty_service.Prelude.{
  text_eq→eq, ◌==◌, find_first-count_where, Text, text_eq_refl, ◌≡◌, refl, Bool, true, false, none,
  some, List, [], ◌∷◌, arith, count_where, ◌+◌, ◌≤◌, not, ◌&&◌, is_some, inl, inr, Bool-cases,
  Option-cases, find_first, text_eq,
}
use cinema_loyalty_service.Achievements.Administration.{
  serve_admin, AdminRequest, create, update, delete, Json, create_achievement,
  update_achievement_grpc, delete_achievement, Catalogue, has_code, has_id, takes_code,
  insert_achievement, update_achievement, deactivate_achievement,
}
use cinema_loyalty_service.Achievements.Catalogue.{normalize_achievement_input, AchievementRow}
use cinema_loyalty_service.Achievements.Codes.{serve_admin-IsCatalogue}
use cinema_loyalty_service.Achievements.Mapper.{AchievementDto}
use cinema_loyalty_service.Achievements.Rows.{IsCatalogue, count_takes}
use cinema_loyalty_service.Store.Tx.{Answer, returned, raised, rpc_exception}
use cinema_loyalty_service.Store.Types.{Instant, Uuid}

-- the answer to a request that no other session disturbs
unfoldable pub admin_answer : Json → Instant → AdminRequest → Catalogue → Answer AchievementDto
admin_answer js now (create req) c = (create_achievement js (λ x. x) now req c).0
admin_answer js now (update n req) c = (update_achievement_grpc js (λ x. x) now n req c).0
admin_answer js now (delete n) c = (delete_achievement js (λ x. x) now n c).0

-- an achievement, or a refusal with a gRPC status: no failure of a statement
abbrev pub is_answered : {A : Type 0} → Answer A → Bool
is_answered (returned a) = true
is_answered (raised (rpc_exception s m)) = true
is_answered (raised _) = false

count_where-find_first :
    {A : Type 0} (p : A → Bool) (xs : List A) → count_where p xs ≡ 0 → find_first p xs ≡ none
unfolding count_where find_first
count_where-find_first p [] h = refl
count_where-find_first p (x ∷ xs) h = ground (arith, count_where-find_first p xs)

-- a row is no other row with its code
count_takes-found :
    (n : Uuid) (a : AchievementRow) (rows : List AchievementRow)
    → find_first (has_id n) rows ≡ some a
    → count_where (takes_code n a.input.code) rows + 1 ≤ count_where (has_code a.input.code) rows
unfolding count_where find_first
count_takes-found n a [] h = cc
count_takes-found n a (b ∷ rows) h = elim (Bool-cases (has_id n b)) [
  | inl own ↦
      let same : b ≡ a = ground (arith, rw own at h) in
      let rest = count_takes n a.input.code rows in
      let own' : (a.id == n) ≡ true = rw same at own in
      rw (same, text_eq_refl a.input.code) (rw own' (omega (arith, rest)))
  | inr other ↦ let rest = count_takes-found n a rows (rw other at h) in ground (arith, rest, other)
]

-- A code that passed the check of an update is free for the write.
checked_free :
    (n : Uuid) (t : Text) (a : AchievementRow) (c : Catalogue)
    → IsCatalogue c
    → find_first (has_id n) c.rows ≡ some a
    → (not (text_eq t a.input.code) && is_some (find_first (has_code t) c.rows)) ≡ false
    → find_first (takes_code n t) c.rows ≡ none
checked_free n t a c h found checked = count_where-find_first (takes_code n t) c.rows none_takes
  where
    none_takes : count_where (takes_code n t) c.rows ≡ 0
    none_takes = elim (Bool-cases (text_eq t a.input.code)) [
      | inl own ↦
          let same = text_eq→eq t a.input.code own in
          let one = h.codes t in
          let counted = count_takes-found n a c.rows found in
          let counted' : count_where (takes_code n t) c.rows + 1 ≤ count_where (has_code t) c.rows =
            rw same counted in
          omega (arith, one, counted')
      | inr other ↦ elim (Option-cases (find_first (has_code t) c.rows)) [
        | inr (b, taken) ↦ let x = rw (other, taken) at checked in cc
        | inl free ↦
            let zero = find_first-count_where (has_code t) c.rows free in
            let less = count_takes n t c.rows in omega (arith, zero, less)
      ]
    ]

-- the answer to one request
admin_answer-is_answered :
    (js : Json) (now : Instant) (r : AdminRequest) (c : Catalogue)
    → IsCatalogue c
    → is_answered (admin_answer js now r c) ≡ true
unfolding admin_answer create_achievement update_achievement_grpc delete_achievement
    insert_achievement update_achievement deactivate_achievement
admin_answer-is_answered js now (create req) c h =
    elim (Option-cases (normalize_achievement_input js.parse_json req)) [
      | inl wrong ↦ rw (wrong, is_answered) refl
      | inr (i, read) ↦ elim (Option-cases (find_first (has_code i.code) c.rows)) [
        | inr (a, taken) ↦ rw (read, is_answered) (rw (taken, is_answered) refl)
        | inl free ↦ rw (read, is_answered) (rw (free, is_answered) refl)
      ]
    ]
admin_answer-is_answered js now (update n req) c h =
    elim (Option-cases (find_first (has_id n) c.rows)) [
      | inl gone ↦ rw (gone, is_answered) refl
      | inr (a, found) ↦ elim (Option-cases (normalize_achievement_input js.parse_json req)) [
        | inl wrong ↦ rw (found, is_answered) (rw (wrong, is_answered) refl)
        | inr (i, read) ↦
            elim (Bool-cases (
              not (text_eq i.code a.input.code) && is_some (find_first (has_code i.code) c.rows))) [
                | inl taken ↦
                    rw (found, is_answered) (rw (read, is_answered) (rw (taken, is_answered) refl))
                | inr free ↦
                    rw (found, is_answered)
                      (rw (read, is_answered)
                        (rw (free, is_answered)
                          (rw (found, update_achievement, is_answered)
                            (rw (checked_free n i.code a c h found free, is_answered) refl))))
              ]
      ]
    ]
admin_answer-is_answered js now (delete n) c h =
    elim (Option-cases (find_first (has_id n) c.rows)) [
      | inl gone ↦ rw (gone, is_answered) refl
      | inr (a, found) ↦ elim (Bool-cases (not a.input.is_active)) [
        | inl idle ↦ rw (found, is_answered) (rw (idle, is_answered) refl)
        | inr active ↦
            rw (found, is_answered)
              (rw (active, is_answered) (rw (found, deactivate_achievement, is_answered) refl))
      ]
    ]

-- the catalogue after some requests
unfoldable pub after_requests : Json → List (Instant × AdminRequest) → Catalogue → Catalogue
after_requests js [] c = c
after_requests js ((now, r) ∷ rs) c = after_requests js rs (serve_admin js (λ x. x) now r c)

after_requests-IsCatalogue :
    (js : Json) (rs : List (Instant × AdminRequest)) (c : Catalogue)
    → IsCatalogue c
    → IsCatalogue (after_requests js rs c)
unfolding after_requests
after_requests-IsCatalogue js [] c h = h
after_requests-IsCatalogue js ((now, r) ∷ rs) c h =
    after_requests-IsCatalogue js rs _ (serve_admin-IsCatalogue js (λ x. x) now (λ d k. k) r c h)

-- While no other session writes, an administrator is answered or refused with a status of gRPC, after
-- any requests: the checks of a request leave no write that the database would refuse, for a code
-- that is taken or for a row that is gone. At the start no two achievements share a code or an id.
pub admin_answer-after_requests :
    (js : Json) (past : List (Instant × AdminRequest)) (now : Instant) (r : AdminRequest)
    (c : Catalogue)
    → IsCatalogue c
    → is_answered (admin_answer js now r (after_requests js past c)) ≡ true
admin_answer-after_requests js past now r c h =
    admin_answer-is_answered js now r _ (after_requests-IsCatalogue js past c h)
