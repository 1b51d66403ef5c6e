-- ===== src/Expiration/Work.antt =====
-- What the work of a job on one profile does to the rows of the others.
use cinema_loyalty_service.Prelude.{
  sym, ℕ, ◌≡◌, refl, ap, ◌∙◌, ◌⊎◌, inl, inr, Bool, true, false, none, some, List, [], ◌∷◌, arith,
  ◌==◌, ==-refl, Bool-cases, is_some,
}
use cinema_loyalty_service.Store.Profiles.{find_profile-user_id, find_profile, replace_profile}
use cinema_loyalty_service.Store.Types.{Uuid, Profile}

-- a row of the table
abbrev pub Has : Profile → List Profile → Type 0
Has r [] = ⊥
Has r (p ∷ ps) = (r ≡ p) ⊎ Has r ps

-- Rows of one user are one row.
abbrev pub AreUnique : List Profile → Type 0
AreUnique rows = (r s : Profile) → Has r rows → Has s rows → r.user_id ≡ s.user_id → r ≡ s

abbrev pub ids : List Profile → List ℕ
ids [] = []
ids (p ∷ ps) = p.id ∷ ids ps

-- The work on a user left the rows, and that user's row is not wanted or missing; or it replaced
-- that row by one that is not wanted.
pub data Worked (wanted : Profile → Bool) (u : Uuid) (rows : List Profile)
    : List Profile → Type 0 where
  no_row : find_profile u rows ≡ none → Worked wanted u rows rows
  row_unwanted :
      (p : Profile) → find_profile u rows ≡ some p → wanted p ≡ false → Worked wanted u rows rows
  row_replaced :
      (p q : Profile)
      → find_profile u rows ≡ some p
      → q.user_id ≡ p.user_id
      → q.id ≡ p.id
      → wanted q ≡ false
      → Worked wanted u rows (replace_profile q rows)

pub find_profile-Has :
    (u : Uuid) (rows : List Profile) (p : Profile) → find_profile u rows ≡ some p → Has p rows
unfolding find_profile
find_profile-Has u [] p h = absurd (cc)
find_profile-Has u (q ∷ rows) p h = elim (Bool-cases (q.user_id == u)) [
  | inl same ↦ inl (ground (arith, h, same))
  | inr other ↦ inr (find_profile-Has u rows p (rw (other, find_profile) at h))
]

pub Has-find_profile :
    (r : Profile) (rows : List Profile) → Has r rows → is_some (find_profile r.user_id rows) ≡ true
unfolding find_profile
Has-find_profile r [] h = absurd h
Has-find_profile r (q ∷ rows) (inl e) = rw (← e) (rw (==-refl r.user_id) refl)
Has-find_profile r (q ∷ rows) (inr h) = elim (Bool-cases (q.user_id == r.user_id)) [
  | inl same ↦ rw (same, find_profile) refl
  | inr other ↦ rw (other, find_profile) (Has-find_profile r rows h)
]

-- A row after a replacement is the new one, or an old one of another user.
pub Has-replace_profile :
    (q r : Profile) (rows : List Profile)
    → Has r (replace_profile q rows)
    → (r ≡ q) ⊎ (Has r rows × ((r.user_id == q.user_id) ≡ false))
unfolding replace_profile
Has-replace_profile q r [] h = absurd h
Has-replace_profile q r (p ∷ rows) (inl e) = elim (Bool-cases (p.user_id == q.user_id)) [
  | inl same ↦ inl (e ∙ rw same refl)
  | inr other ↦ let same : r ≡ p = e ∙ rw other refl in inr (inl same, rw same other)
]
Has-replace_profile q r (p ∷ rows) (inr h) = elim (Has-replace_profile q r rows h) [
  | inl e ↦ inl e
  | inr (old, other) ↦ inr (inr old, other)
]

pub ids-replace_profile :
    (q : Profile) (rows : List Profile)
    → ((r : Profile) → Has r rows → r.user_id ≡ q.user_id → r.id ≡ q.id)
    → ids (replace_profile q rows) ≡ ids rows
unfolding replace_profile
ids-replace_profile q [] same = refl
ids-replace_profile q (p ∷ rows) same =
    let rest = ids-replace_profile q rows (λ r h. same r (inr h)) in
    elim (Bool-cases (p.user_id == q.user_id)) [
      | inl own ↦
          let e : p.id ≡ q.id = same p (inl refl) (ground (arith, own)) in rw own (cc (e, rest))
      | inr other ↦ rw other (ap (λ (l : List ℕ). p.id ∷ l) rest)
    ]

-- What the work leaves: the ids in their places, one row for each user, and as wanted rows only old
-- ones of other users.
pub record Leaves (wanted : Profile → Bool) (u : Uuid) (rows later : List Profile) : Type 0 where
  pub same_ids : ids later ≡ ids rows
  pub unique : AreUnique later
  pub others : (r : Profile) → Has r later → wanted r ≡ true → Has r rows × (r.user_id ≡ u → ⊥)

module _ (wanted : Profile → Bool) (u : Uuid) (rows : List Profile) (unique : AreUnique rows) where
  missing-Leaves : find_profile u rows ≡ none → Leaves wanted u rows rows
  missing-Leaves none_found = record {
    same_ids = refl;
    unique = unique;
    others = λ r h w. (h, λ own. let x = rw (own, none_found) at (Has-find_profile r rows h) in cc);
  }

  unwanted-Leaves :
      (p : Profile) → find_profile u rows ≡ some p → wanted p ≡ false → Leaves wanted u rows rows
  unwanted-Leaves p found idle = record {
    same_ids = refl;
    unique = unique;
    others = λ r h w. (
      h,
      λ own.
          let x : r ≡ p =
            unique r p h (find_profile-Has u rows p found)
              (own ∙ sym (find_profile-user_id u rows p found)) in
          let y : wanted r ≡ false = ap wanted x ∙ idle in cc,
    );
  }

  pub replaced-Leaves :
      (p q : Profile)
      → find_profile u rows ≡ some p
      → q.user_id ≡ p.user_id
      → q.id ≡ p.id
      → wanted q ≡ false
      → Leaves wanted u rows (replace_profile q rows)
  replaced-Leaves p q found same_user same_id idle =
      let there = find_profile-Has u rows p found in
      let own = find_profile-user_id u rows p found in
      record {
        same_ids =
            ids-replace_profile q rows
              (λ r h e. ap Profile.id (unique r p h there (e ∙ same_user)) ∙ sym same_id);
        unique = λ r s h k e. elim (Has-replace_profile q r rows h) [
          | inl is_q ↦ elim (Has-replace_profile q s rows k) [
            | inl also_q ↦ is_q ∙ sym also_q
            | inr (old, other) ↦ absurd (ground (arith, other, e, ap Profile.user_id is_q))
          ]
          | inr (old, other) ↦ elim (Has-replace_profile q s rows k) [
            | inl is_q ↦ absurd (ground (arith, other, e, ap Profile.user_id is_q))
            | inr (old', other') ↦ unique r s old old' e
          ]
        ];
        others = λ r h w. elim (Has-replace_profile q r rows h) [
          | inl is_q ↦ let y : wanted r ≡ false = ap wanted is_q ∙ idle in absurd (cc)
          | inr (old, other) ↦ (old, λ mine. ground (arith, other, mine, own, same_user))
        ];
      }

pub Worked-Leaves :
    (wanted : Profile → Bool) (u : Uuid) (rows later : List Profile)
    → AreUnique rows
    → Worked wanted u rows later
    → Leaves wanted u rows later
Worked-Leaves wanted u rows later unique (no_row none_found) =
    missing-Leaves wanted u rows unique none_found
Worked-Leaves wanted u rows later unique (row_unwanted p found idle) =
    unwanted-Leaves wanted u rows unique p found idle
Worked-Leaves wanted u rows later unique (row_replaced p q found same_user same_id idle) =
    replaced-Leaves wanted u rows unique p q found same_user same_id idle
