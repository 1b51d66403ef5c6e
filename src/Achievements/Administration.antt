-- ===== src/Achievements/Administration.antt =====
-- AdminAchievementsService (src/achievements/admin-achievements.service.ts). The statements of one
-- call are no transaction: `between` is what other sessions commit between its reading and its
-- writing. The table has a unique index on the codes.
use cinema_loyalty_service.Prelude.{
  Text, text_eq, ℤ, pos_part, ltb_ℤ, ℕ, ◌+◌, Bool, false, not, ◌&&◌, ◌||◌, Option, none, some, List,
  [], ◌∷◌, map, ◌==◌, if◌then◌else◌, is_some, length, take, drop, select, find_first, update_where,
}
use cinema_loyalty_service.Achievements.Catalogue.{
  AchievementInput, AchievementRow, AchievementRequest, normalize_achievement_input,
}
use cinema_loyalty_service.Achievements.Input.{normalize_admin_achievements_pagination}
use cinema_loyalty_service.Achievements.Mapper.{AchievementDto, to_grpc}
use cinema_loyalty_service.Achievements.Progress.{Criteria}
use cinema_loyalty_service.Store.Tx.{
  p2002, p2025, invalid_argument, not_found, already_exists, achievement_exists,
  achievement_not_found, invalid_achievement, rpc_exception, known_request, Answer, returned,
  raised,
}
use cinema_loyalty_service.Store.Types.{Uuid, Instant}

-- the table of achievements, the newest row first; `next_id` is above every id
pub record Catalogue : Type 0 where
  pub rows : List AchievementRow
  pub next_id : Uuid

abbrev pub has_code : Text → AchievementRow → Bool
has_code t a = text_eq a.input.code t

abbrev pub has_id : Uuid → AchievementRow → Bool
has_id n a = a.id == n

-- another row with a code
abbrev pub takes_code : Uuid → Text → AchievementRow → Bool
takes_code n t a = text_eq a.input.code t && not (a.id == n)

abbrev new_row : Instant → Uuid → AchievementInput → AchievementRow
new_row now n i = record { id = n; input = i; created_at = now; updated_at = now }

-- INSERT, under the unique index
unfoldable pub insert_achievement :
    Instant → AchievementInput → Catalogue → Answer AchievementRow × Catalogue
insert_achievement now i c =
    if is_some (find_first (has_code i.code) c.rows)
    then (raised (known_request p2002 none), c)
    else (
      returned (new_row now c.next_id i),
      record { rows = new_row now c.next_id i ∷ c.rows; next_id = c.next_id + 1 },
    )

-- UPDATE of the row with an id, under the unique index
unfoldable pub update_achievement :
    Instant → Uuid → AchievementInput → Catalogue → Answer AchievementRow × Catalogue
update_achievement now n i c = elim (find_first (has_id n) c.rows) [
  | none ↦ (raised (known_request p2025 none), c)
  | some a ↦
      if is_some (find_first (takes_code n i.code) c.rows)
      then (raised (known_request p2002 none), c)
      else (
        returned (record a { input = i; updated_at = now }),
        record c {
          rows = update_where (has_id n) (λ x. record x { input = i; updated_at = now }) c.rows;
        },
      )
]

-- UPDATE ... SET is_active = false of the row with an id
unfoldable pub deactivate_achievement :
    Instant → Uuid → Catalogue → Answer AchievementRow × Catalogue
deactivate_achievement now n c = elim (find_first (has_id n) c.rows) [
  | none ↦ (raised (known_request p2025 none), c)
  | some a ↦ (
    returned (record a { input = record a.input { is_active = false }; updated_at = now }),
    record c {
      rows =
          update_where (has_id n)
            (λ x. record x { input = record x.input { is_active = false }; updated_at = now })
            c.rows;
    },
  )
]

abbrev pub answer_dto :
    (Criteria → Text) → Answer AchievementRow × Catalogue → Answer AchievementDto × Catalogue
answer_dto print_json (returned a, c) = (returned (to_grpc print_json a), c)
answer_dto print_json (raised e, c) = (raised e, c)

-- what both texts of JSON are read and written by
pub record Json : Type 0 where
  pub parse_json : Text → Option Criteria
  pub print_json : Criteria → Text

unfoldable pub create_achievement :
    Json
    → (Catalogue → Catalogue)
    → Instant
    → AchievementRequest
    → Catalogue
    → Answer AchievementDto × Catalogue
create_achievement js between now req c = elim (normalize_achievement_input js.parse_json req) [
  | none ↦ (raised (rpc_exception invalid_argument invalid_achievement), c)
  | some i ↦
      if is_some (find_first (has_code i.code) c.rows)
      then (raised (rpc_exception already_exists achievement_exists), c)
      else answer_dto js.print_json (insert_achievement now i (between c))
]

unfoldable pub update_achievement_grpc :
    Json
    → (Catalogue → Catalogue)
    → Instant
    → Uuid
    → AchievementRequest
    → Catalogue
    → Answer AchievementDto × Catalogue
update_achievement_grpc js between now n req c = elim (find_first (has_id n) c.rows) [
  | none ↦ (raised (rpc_exception not_found achievement_not_found), c)
  | some found ↦ elim (normalize_achievement_input js.parse_json req) [
    | none ↦ (raised (rpc_exception invalid_argument invalid_achievement), c)
    | some i ↦
        if not (text_eq i.code found.input.code) && is_some (find_first (has_code i.code) c.rows)
        then (raised (rpc_exception already_exists achievement_exists), c)
        else answer_dto js.print_json (update_achievement now n i (between c))
  ]
]

unfoldable pub delete_achievement :
    Json → (Catalogue → Catalogue) → Instant → Uuid → Catalogue → Answer AchievementDto × Catalogue
delete_achievement js between now n c = elim (find_first (has_id n) c.rows) [
  | none ↦ (raised (rpc_exception not_found achievement_not_found), c)
  | some found ↦
      if not found.input.is_active
      then (returned (to_grpc js.print_json found), c)
      else answer_dto js.print_json (deactivate_achievement now n (between c))
]

-- `orderBy: [{ sortOrder: 'asc' }, { createdAt: 'desc' }]`; the table is newest first
unfoldable pub insert_by_order : AchievementRow → List AchievementRow → List AchievementRow
insert_by_order a [] = a ∷ []
insert_by_order a (b ∷ rows) =
    let rest = insert_by_order a rows in
    if ltb_ℤ b.input.sort_order a.input.sort_order then b ∷ rest else a ∷ b ∷ rows

unfoldable pub by_order : List AchievementRow → List AchievementRow
by_order [] = []
by_order (a ∷ rows) = insert_by_order a (by_order rows)

unfoldable pub get_admin_achievements :
    Json → Bool → Option ℤ → Option ℤ → Catalogue → List AchievementDto × ℕ
get_admin_achievements js include_inactive limit offset c =
    let page = normalize_admin_achievements_pagination limit offset in
    let rows = select (λ a. include_inactive || a.input.is_active) c.rows in
    (
      map (to_grpc js.print_json)
          (take (pos_part page.limit) (drop (pos_part page.offset) (by_order rows))),
      length rows,
    )

-- what an administrator asks for
pub data AdminRequest : Type 0 where
  create : AchievementRequest → AdminRequest
  update : Uuid → AchievementRequest → AdminRequest
  delete : Uuid → AdminRequest

-- the catalogue after a request
unfoldable pub serve_admin :
    Json → (Catalogue → Catalogue) → Instant → AdminRequest → Catalogue → Catalogue
serve_admin js between now (create req) c = (create_achievement js between now req c).1
serve_admin js between now (update n req) c = (update_achievement_grpc js between now n req c).1
serve_admin js between now (delete n) c = (delete_achievement js between now n c).1
