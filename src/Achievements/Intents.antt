-- ===== src/Achievements/Intents.antt =====
-- `saveDispatchIntents` (src/achievements/achievements.service.ts) and the schema of an event
-- (src/achievements/schemas/events.schemas.ts).
use cinema_loyalty_service.Prelude.{
  ◌≡◌, refl, arith, ◌+◌, Bool, true, false, ◌&&◌, not, none, if◌then◌else◌, List, [], ◌∷◌, Text,
  trim, text_eq, length, leb, ◌==◌, is_some, find_first,
}
use cinema_loyalty_service.Store.Types.{
  Db, Uuid, Instant, AchievementAction, ticket_purchased, bulk_ticket_purchased, review_left,
  vip_seat_bought, ActionMetadata, DispatchIntent,
}
use cinema_loyalty_service.Store.Tx.{Tx, throw_if, modify, ◌>>◌, plain_error, invalid_action_event}

-- ActionEvent; the uuid schema of `userId` holds by the type
pub record ActionEvent : Type 0 where
  pub event_id : Text
  pub user_id : Uuid
  pub action_type : AchievementAction
  pub metadata : ActionMetadata

abbrev pub action_eq : AchievementAction → AchievementAction → Bool
action_eq ticket_purchased ticket_purchased = true
action_eq bulk_ticket_purchased bulk_ticket_purchased = true
action_eq review_left review_left = true
action_eq vip_seat_bought vip_seat_bought = true
action_eq _ _ = false

-- the event id is trimmed, and has 1 to 91 code units
unfoldable pub valid_event_id : Text → Bool
valid_event_id t = leb 1 (length (trim t)) && leb (length (trim t)) 91

abbrev pub is_intent_of : ActionEvent → DispatchIntent → Bool
is_intent_of e i =
    i.user_id == e.user_id
    && (text_eq i.event_id (trim e.event_id) && action_eq i.action_type e.action_type)

-- `createMany` with `skipDuplicates` over the unique (userId, eventId, actionType)
unfoldable pub add_intent : Instant → ActionEvent → Db → Db
add_intent now e d = if is_some (find_first (is_intent_of e) d.intents) then d else record d {
  intents =
      record {
        id = d.next_id;
        event_id = trim e.event_id;
        user_id = e.user_id;
        action_type = e.action_type;
        payload = e.metadata;
        delivered_at = none;
        attempts = 0;
        next_attempt_at = now;
      }
      ∷ d.intents;
  next_id = d.next_id + 1;
}

all_valid : List ActionEvent → Bool
all_valid [] = true
all_valid (e ∷ es) = valid_event_id e.event_id && all_valid es

unfoldable pub add_intents : Instant → List ActionEvent → Db → Db
unfolding add_intent
add_intents now [] d = d
add_intents now (e ∷ es) d = add_intents now es (add_intent now e d)

-- every event is validated before any row is written
unfoldable pub save_dispatch_intents : Instant → List ActionEvent → Tx (Unit {0})
unfolding add_intents all_valid valid_event_id
save_dispatch_intents now events = do
  throw_if (not (all_valid events)) (plain_error invalid_action_event)
  modify (add_intents now events)

-- Intents touch neither balances, nor the ledger, nor the processed events.
pub add_intents_apart :
    (now : Instant) (es : List ActionEvent) (d : Db)
    → ((add_intents now es d).profiles ≡ d.profiles)
      × ((add_intents now es d).transactions ≡ d.transactions)
      × ((add_intents now es d).processed ≡ d.processed)
unfolding add_intents
add_intents_apart now [] d = (refl, refl, refl)
add_intents_apart now (e ∷ es) d = ground (arith, add_intents_apart now es (add_intent now e d))
