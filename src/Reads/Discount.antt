-- ===== src/Reads/Discount.antt =====
-- What an offered discount guarantees.
use cinema_loyalty_service.Prelude.{
  none, some, [], negsuc, -ℤ_parts, ◌-ℤ◌, int_laws, arith, ℤ, pos, ◌≤ℤ◌, ◌+ℤ◌, ◌≡◌, true, false,
}
use cinema_loyalty_service.Calculator.{Clock}
use cinema_loyalty_service.Points.Acceptance.{after_deduction, deduct_body-accepted}
use cinema_loyalty_service.Points.Command.{PointCommand, accepted, find_processed}
use cinema_loyalty_service.Points.Deduct.{deduct_body, minimum_deduction_points}
use cinema_loyalty_service.Reads.{half_in_points, discount_of, worth, calculate_discount}
use cinema_loyalty_service.Store.Profiles.{find_profile, balance_of-found, fits, balance_of}
use cinema_loyalty_service.Store.Tx.{done}
use cinema_loyalty_service.Store.Types.{Profile, Uuid, Db}

worth-half : (p amount : ℤ) → p ≤ℤ half_in_points amount → worth p ≤ℤ amount -ℤ worth p
worth-half p (pos n) h = ground (arith, h, -ℤ_parts (pos n) (worth p))
worth-half p (negsuc n) h = ground (arith, h, -ℤ_parts (negsuc n) (worth p))

back_to : (a b : ℤ) → b +ℤ (a -ℤ b) ≡ a
back_to a b = omega int_laws

zero_first : (a : ℤ) → worth (pos 0) +ℤ a ≡ a
zero_first a = omega int_laws

module _ (balance : ℤ) (amount : ℤ) where
  adds_up :
      worth (discount_of balance amount).points_to_deduct
        +ℤ (discount_of balance amount).amount_to_pay
      ≡ amount
  unfolding discount_of
  adds_up = ground (
    arith,
    back_to amount (worth balance),
    back_to amount (worth (half_in_points amount)),
    zero_first amount,
  )

  allowed :
      (discount_of balance amount).is_allowed ≡ true
      → (pos minimum_deduction_points ≤ℤ (discount_of balance amount).points_to_deduct)
        × ((discount_of balance amount).points_to_deduct ≤ℤ balance)
        × (worth (discount_of balance amount).points_to_deduct
            ≤ℤ (discount_of balance amount).amount_to_pay)
  unfolding discount_of
  allowed h =
      ground (arith, h, worth-half balance amount, worth-half (half_in_points amount) amount)

  not_allowed :
      (discount_of balance amount).is_allowed ≡ false
      → (discount_of balance amount).points_to_deduct ≡ pos 0
  unfolding discount_of
  not_allowed h = ground (arith, h)

-- A discount that is allowed is of at least 75 points, of no more than the balance and of no more
-- than half the order's amount; one that is not allowed takes no points. In both cases what is left
-- to pay and what the points are worth add up to the amount.
pub calculate_discount-bounds :
    (u : Uuid) (amount : ℤ) (db : Db)
    → (worth (calculate_discount u amount db).points_to_deduct
          +ℤ (calculate_discount u amount db).amount_to_pay
        ≡ amount)
      × ((calculate_discount u amount db).is_allowed ≡ true
          → (pos minimum_deduction_points ≤ℤ (calculate_discount u amount db).points_to_deduct)
            × ((calculate_discount u amount db).points_to_deduct ≤ℤ balance_of u db.profiles)
            × (worth (calculate_discount u amount db).points_to_deduct
                ≤ℤ (calculate_discount u amount db).amount_to_pay))
      × ((calculate_discount u amount db).is_allowed ≡ false
          → (calculate_discount u amount db).points_to_deduct ≡ pos 0)
unfolding calculate_discount
calculate_discount-bounds u amount db =
    let b = balance_of u db.profiles in (adds_up b amount, allowed b amount, not_allowed b amount)

-- The points of a discount that is allowed can be deducted: on the database that the offer was read
-- from, a deduction of just these points for the user, under a new key, is accepted, and leaves the
-- balance less these points.
pub calculate_discount-accepted :
    (clock : Clock) (amount : ℤ) (c : PointCommand) (p : Profile) (db : Db)
    → (calculate_discount c.user_id amount db).is_allowed ≡ true
    → c.amount ≡ (calculate_discount c.user_id amount db).points_to_deduct
    → find_profile c.user_id db.profiles ≡ some p
    → fits p ≡ true
    → find_processed c.idempotency_key db.processed ≡ none
    → (d : Db) × (deduct_body clock c [] db ≡ done (accepted (p.balance -ℤ c.amount)) d)
calculate_discount-accepted clock amount c p db ok points found wide fresh =
    let (many, some_left, half) = (calculate_discount-bounds c.user_id amount db).1 ok in
    let balance = balance_of-found c.user_id db.profiles p found in
    (
      after_deduction clock c p db,
      deduct_body-accepted clock c p db
          (fresh, found, wide, rw points many, rw points (rw balance at some_left)),
    )
