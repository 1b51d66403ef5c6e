-- ===== src/Expiration/Grants.antt =====
-- What the birthday bonus of one user does to the profiles and the bonuses.
use cinema_loyalty_service.Prelude.{
  ap, subst, ==-refl, sym, arith, ◌≡◌, refl, ◌∙◌, inl, inr, Bool, true, false, not, ◌&&◌, Option,
  some, List, ◌∷◌, Bool-cases, Option-cases, is_some, find_first,
}
use cinema_loyalty_service.Birthday.{
  is_grant_of, has_birthday, grant_for_user_body, grant_birthday_bonus_in_transaction, book_bonus,
  with_bonus, create_grant, is_unique_constraint_error,
}
use cinema_loyalty_service.Calculator.{Clock}
use cinema_loyalty_service.Expiration.Visits.{Spares}
use cinema_loyalty_service.Expiration.Work.{
  ids, Has-replace_profile, replaced-Leaves, find_profile-Has, Has-find_profile, Has, AreUnique,
}
use cinema_loyalty_service.Store.Profiles.{
  find_profile-user_id, find_profile, replace_profile, lock_loyalty_profile, update_profile,
  update_profile-Keeps,
}
use cinema_loyalty_service.Store.Tx.{Keeps, Failure, thrown}
use cinema_loyalty_service.Store.Types.{Uuid, Profile, BonusGrant, LocalDate, Db}

abbrev pub has_grant : Clock → Uuid → List BonusGrant → Bool
has_grant clock u gs = is_some (find_first (is_grant_of u clock.today.year) gs)

-- a birthday of today without its bonus
abbrev pub is_owed : Clock → Db → Profile → Bool
is_owed clock d r = has_birthday clock r.birthday_date && not (has_grant clock r.user_id d.grants)

-- What a transaction for a user does: nothing, and then the user is owed nothing, or a bonus.
pub data Settled (clock : Clock) (u : Uuid) (db later : Db) : Type 0 where
  left_alone :
      later.profiles ≡ db.profiles
      → later.grants ≡ db.grants
      → ((r : Profile) → Has r db.profiles → r.user_id ≡ u → is_owed clock db r ≡ false)
      → Settled clock u db later
  gave_bonus :
      (p q : Profile) (g : BonusGrant)
      → find_profile u db.profiles ≡ some p
      → q.user_id ≡ p.user_id
      → q.id ≡ p.id
      → q.birthday_date ≡ p.birthday_date
      → is_grant_of u clock.today.year g ≡ true
      → later.profiles ≡ replace_profile q db.profiles
      → later.grants ≡ g ∷ db.grants
      → Settled clock u db later

-- the rows of the table and the birthdays that they had at the start
abbrev pub Dated : (Uuid → Option LocalDate) → Profile → Type 0
Dated born r = r.birthday_date ≡ born r.user_id

book_bonus-Settled :
    (clock : Clock) (u : Uuid) (p : Profile) (db : Db)
    → find_profile u db.profiles ≡ some p
    → has_grant clock u db.grants ≡ false
    → Keeps (Settled clock u db) (book_bonus clock u p db)
unfolding book_bonus with_bonus create_grant
book_bonus-Settled clock u p db found new =
    update_profile-Keeps (Settled clock u db) (with_bonus clock p) _ db (λ ok.
      (rw new (
        gave_bonus p (with_bonus clock p) _ found refl refl refl
          (rw (==-refl u, ==-refl clock.today.year) refl) refl refl)))

grant_in_transaction-Settled :
    (clock : Clock) (u : Uuid) (db : Db)
    → AreUnique db.profiles
    → Keeps (Settled clock u db) (grant_birthday_bonus_in_transaction clock u db)
unfolding grant_birthday_bonus_in_transaction
grant_in_transaction-Settled clock u db unique = elim (Bool-cases (has_grant clock u db.grants)) [
  | inl old ↦ rw old (left_alone refl refl (λ r h own. owed_none r own old))
  | inr new ↦ elim (Option-cases (find_profile u db.profiles)) [
    | inl nobody ↦
        rw (new, nobody)
          (left_alone refl refl
            (λ r h own. let x = rw (own, nobody) at (Has-find_profile r db.profiles h) in cc))
    | inr (p, found) ↦ elim (Bool-cases (has_birthday clock p.birthday_date)) [
      | inl today ↦ rw (new, found, today) (book_bonus-Settled clock u p db found new)
      | inr other ↦
          rw (new, found, other)
            (left_alone refl refl (λ r h own.
              let same : r ≡ p =
                unique r p h (find_profile-Has u db.profiles p found)
                  (own ∙ sym (find_profile-user_id u db.profiles p found)) in
              rw (same, other) refl))
    ]
  ]
]
  where
    owed_none :
        (r : Profile)
        → r.user_id ≡ u
        → has_grant clock u db.grants ≡ true
        → is_owed clock db r ≡ false
    owed_none r own old = rw (own, old) (ground arith)

-- A transaction for a user fails for another reason than a bonus that is there.
pub grant_for_user_body-fails :
    (clock : Clock) (u : Uuid) (db : Db) (e : Failure)
    → grant_for_user_body clock u db ≡ thrown e
    → is_unique_constraint_error e ≡ false
unfolding grant_for_user_body lock_loyalty_profile grant_birthday_bonus_in_transaction book_bonus
    update_profile create_grant with_bonus
grant_for_user_body-fails clock u db e h = ground arith

pub grant_for_user_body-Settled :
    (clock : Clock) (u : Uuid) (db : Db)
    → AreUnique db.profiles
    → Keeps (Settled clock u db) (grant_for_user_body clock u db)
unfolding grant_for_user_body lock_loyalty_profile
grant_for_user_body-Settled clock u db unique =
    elim (Bool-cases (is_some (find_profile u db.profiles))) [
      | inl locked ↦ rw locked (grant_in_transaction-Settled clock u db unique)
      | inr nobody ↦ rw nobody (
          left_alone refl refl
            (λ r h own. let x = rw (own, nobody) at (Has-find_profile r db.profiles h) in cc))
    ]

pub Settled-same :
    (clock : Clock) (u : Uuid) (x d later : Db)
    → x.profiles ≡ d.profiles
    → x.grants ≡ d.grants
    → Settled clock u x later
    → Settled clock u d later
Settled-same clock u x d later rows gs (left_alone a b idle) =
    left_alone (a ∙ rows) (b ∙ gs) (λ r h own.
      subst (λ l. (has_birthday clock r.birthday_date && not (has_grant clock r.user_id l)) ≡ false)
        gs (idle r (subst (Has r) (sym rows) h) own))
Settled-same clock u x d later rows gs (gave_bonus p q g found user id born mine a b) =
    gave_bonus p q g (rw (← rows) found) user id born mine (rw (← rows) a) (rw (← gs) b)

-- a grant of another user takes nothing back
has_grant-other :
    (clock : Clock) (u : Uuid) (g : BonusGrant) (gs : List BonusGrant)
    → has_grant clock u (g ∷ gs) ≡ false
    → has_grant clock u gs ≡ false
unfolding find_first
has_grant-other clock u g gs h = elim (Bool-cases (is_grant_of u clock.today.year g)) [
  | inl own ↦ let x = rw own at h in cc
  | inr other ↦ rw other at h
]

has_grant-own :
    (clock : Clock) (u : Uuid) (g : BonusGrant) (gs : List BonusGrant)
    → is_grant_of u clock.today.year g ≡ true
    → has_grant clock u (g ∷ gs) ≡ true
unfolding find_first
has_grant-own clock u g gs own = rw own refl

pub and_not : (a b : Bool) → (a && not b) ≡ true → (a ≡ true) × (b ≡ false)
and_not a b h = (ground (arith, h), ground (arith, h))

module _ (clock : Clock) (born : Uuid → Option LocalDate) (u : Uuid) (db later : Db)
    (unique : AreUnique db.profiles) (rows : (r : Profile) → Has r db.profiles → Dated born r) where
  pub left_alone-Spares :
      later.profiles ≡ db.profiles
      → later.grants ≡ db.grants
      → ((r : Profile) → Has r db.profiles → r.user_id ≡ u → is_owed clock db r ≡ false)
      → Spares (Dated born) (is_owed clock) u db later
  left_alone-Spares a b idle = record {
    rows = λ r h. rows r (subst (Has r) a h);
    same_ids = ap ids a;
    unique = subst AreUnique (sym a) unique;
    others = λ r h w.
        let old = subst (Has r) a h in
        let owed =
          subst
            (λ l. (has_birthday clock r.birthday_date && not (has_grant clock r.user_id l)) ≡ true)
            b w in
        (old, owed, λ own. let x = idle r old own in cc (x, owed));
  }

  gave_bonus-Spares :
      (p q : Profile) (g : BonusGrant)
      → find_profile u db.profiles ≡ some p
      → q.user_id ≡ p.user_id
      → q.id ≡ p.id
      → q.birthday_date ≡ p.birthday_date
      → is_grant_of u clock.today.year g ≡ true
      → later.profiles ≡ replace_profile q db.profiles
      → later.grants ≡ g ∷ db.grants
      → Spares (Dated born) (is_owed clock) u db later
  gave_bonus-Spares p q g found user id date mine a b =
      let own : q.user_id ≡ u = user ∙ find_profile-user_id u db.profiles p found in
      let there = find_profile-Has u db.profiles p found in
      let moved = replaced-Leaves (λ r. false) u db.profiles unique p q found user id refl in
      record {
        rows = λ r h.
            elim (Has-replace_profile q r db.profiles (subst (Has r) a h)) as (λ x. Dated born r) [
              | inl is_q ↦ rw is_q (date ∙ rows p there ∙ ap born (sym user))
              | inr (old, other) ↦ rows r old
            ];
        same_ids = ap ids a ∙ moved.same_ids;
        unique = subst AreUnique (sym a) moved.unique;
        others = λ r h w.
            let (today, free) = and_not _ _ w in
            let free' : has_grant clock r.user_id (g ∷ db.grants) ≡ false = rw b at free in
            let not_u : r.user_id ≡ u → ⊥ = λ mine'.
              let x = rw mine' at free' in
              let y = has_grant-own clock u g db.grants mine in cc (y, free', mine') in
            elim (Has-replace_profile q r db.profiles (subst (Has r) a h)) [
              | inl is_q ↦ absurd (not_u (ap Profile.user_id is_q ∙ own))
              | inr (old, other) ↦
                  (old, rw (today, has_grant-other clock r.user_id g db.grants free') refl, not_u)
            ];
      }

  pub Settled-Spares : Settled clock u db later → Spares (Dated born) (is_owed clock) u db later
  Settled-Spares (left_alone a b idle) = left_alone-Spares a b idle
  Settled-Spares (gave_bonus p q g found user id date mine a b) =
      gave_bonus-Spares p q g found user id date mine a b
