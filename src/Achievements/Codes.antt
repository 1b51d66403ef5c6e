-- ===== src/Achievements/Codes.antt =====
-- The codes of the achievements under the requests of administrators.
use cinema_loyalty_service.Prelude.{
  not, ◌&&◌, is_some, inl, inr, Bool-cases, Option-cases, find_first, text_eq,
}
use cinema_loyalty_service.Achievements.Administration.{
  AdminRequest, create, update, delete, serve_admin, answer_dto, Json, create_achievement,
  update_achievement_grpc, delete_achievement, Catalogue, has_code, has_id,
}
use cinema_loyalty_service.Achievements.Catalogue.{
  normalize_achievement_input, AchievementRequest, AchievementRow,
}
use cinema_loyalty_service.Achievements.Rows.{
  IsCatalogue, insert_achievement-IsCatalogue, update_achievement-IsCatalogue,
  deactivate_achievement-IsCatalogue,
}
use cinema_loyalty_service.Store.Tx.{Answer, returned, raised}
use cinema_loyalty_service.Store.Types.{Instant, Uuid}

answer_dto-IsCatalogue :
    (js : Json) (x : Answer AchievementRow × Catalogue)
    → IsCatalogue x.1
    → IsCatalogue (answer_dto js.print_json x).1
answer_dto-IsCatalogue js (returned a, c) h = h
answer_dto-IsCatalogue js (raised e, c) h = h

module _ (js : Json) (between : Catalogue → Catalogue) (now : Instant)
    (others : (c : Catalogue) → IsCatalogue c → IsCatalogue (between c)) where
  create_achievement-IsCatalogue :
      (req : AchievementRequest) (c : Catalogue)
      → IsCatalogue c
      → IsCatalogue (create_achievement js between now req c).1
  unfolding create_achievement
  create_achievement-IsCatalogue req c h =
      elim (Option-cases (normalize_achievement_input js.parse_json req)) [
        | inl wrong ↦ rw (wrong, create_achievement) h
        | inr (i, read) ↦ elim (Option-cases (find_first (has_code i.code) c.rows)) [
          | inr (a, taken) ↦ rw (read, create_achievement) (rw taken h)
          | inl free ↦
              rw (read, create_achievement)
                (rw free (
                  answer_dto-IsCatalogue js _
                    (insert_achievement-IsCatalogue now i (between c) (others c h))))
        ]
      ]

  update_achievement_grpc-IsCatalogue :
      (n : Uuid) (req : AchievementRequest) (c : Catalogue)
      → IsCatalogue c
      → IsCatalogue (update_achievement_grpc js between now n req c).1
  unfolding update_achievement_grpc
  update_achievement_grpc-IsCatalogue n req c h =
      elim (Option-cases (find_first (has_id n) c.rows)) [
        | inl gone ↦ rw (gone, update_achievement_grpc) h
        | inr (a, found) ↦ elim (Option-cases (normalize_achievement_input js.parse_json req)) [
          | inl wrong ↦ rw (found, update_achievement_grpc) (rw wrong h)
          | inr (i, read) ↦
              elim (Bool-cases (
                not (text_eq i.code a.input.code)
                && is_some (find_first (has_code i.code) c.rows))) [
                  | inl taken ↦ rw (found, update_achievement_grpc) (rw read (rw taken h))
                  | inr free ↦
                      rw (found, update_achievement_grpc)
                        (rw read (
                          rw free (
                            answer_dto-IsCatalogue js _
                              (update_achievement-IsCatalogue now n i (between c) (others c h)))))
                ]
        ]
      ]

  delete_achievement-IsCatalogue :
      (n : Uuid) (c : Catalogue)
      → IsCatalogue c
      → IsCatalogue (delete_achievement js between now n c).1
  unfolding delete_achievement
  delete_achievement-IsCatalogue n c h = elim (Option-cases (find_first (has_id n) c.rows)) [
    | inl gone ↦ rw (gone, delete_achievement) h
    | inr (a, found) ↦ elim (Bool-cases a.input.is_active) [
      | inr off ↦ rw (found, delete_achievement) (rw off h)
      | inl on ↦
          rw (found, delete_achievement)
            (rw on (
              answer_dto-IsCatalogue js _
                (deactivate_achievement-IsCatalogue now n (between c) (others c h))))
    ]
  ]

  -- Creating, updating and deleting achievements never gives two of them one code or one id,
  -- whatever other sessions commit between the reading and the writing of a request, if these do not.
  pub serve_admin-IsCatalogue :
      (r : AdminRequest) (c : Catalogue)
      → IsCatalogue c
      → IsCatalogue (serve_admin js between now r c)
  unfolding serve_admin
  serve_admin-IsCatalogue (create req) c h = create_achievement-IsCatalogue req c h
  serve_admin-IsCatalogue (update n req) c h = update_achievement_grpc-IsCatalogue n req c h
  serve_admin-IsCatalogue (delete n) c h = delete_achievement-IsCatalogue n c h
