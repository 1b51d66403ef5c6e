-- ===== src/Effects.antt =====
-- Asynchronous code that keeps no database of its own: `await`, `throw`, and `try` with `finally`, as
-- a state monad with exceptions. A failure keeps the state, unlike one of a transaction.
use cinema_loyalty_service.Prelude.{Bool, true, false}

pub data Fate (E A : Type 0) : Type 0 where
  finished : A → Fate E A
  failed_with : E → Fate E A

abbrev pub Io : Type 0 → Type 0 → Type 0 → Type 0
Io S E A = S → Fate E A × S

abbrev pub then_with : {S E A B : Type 0} → (A → Io S E B) → Fate E A × S → Fate E B × S
then_with f (finished a, s) = f a s
then_with f (failed_with e, s) = (failed_with e, s)

infixl 5 ◌>>=◌ ◌>>◌
abbrev pub ◌>>=◌ : {S E A B : Type 0} → Io S E A → (A → Io S E B) → Io S E B
◌>>=◌ m f s = then_with f (m s)

abbrev pub ◌>>◌ : {S E A B : Type 0} → Io S E A → Io S E B → Io S E B
m >> k = m >>= λ _. k

abbrev pub fail : {S E A : Type 0} → E → Io S E A
fail e s = (failed_with e, s)

-- a call that leaves its mark on the state, unless it fails
abbrev pub attempt : {S E : Type 0} → Bool → E → (S → S) → Io S E (Unit {0})
attempt true e f s = (failed_with e, s)
attempt false e f s = (finished tt, f s)

-- a call that leaves its mark even when it fails
abbrev pub attempt_anyway : {S E : Type 0} → Bool → E → (S → S) → Io S E (Unit {0})
attempt_anyway true e f s = (failed_with e, f s)
attempt_anyway false e f s = (finished tt, f s)

abbrev unless_failed : {S E A : Type 0} → Fate E A → Fate E (Unit {0}) × S → Fate E A × S
unless_failed r (finished _, s) = (r, s)
unless_failed r (failed_with e, s) = (failed_with e, s)

abbrev pub finally_with : {S E A : Type 0} → Io S E (Unit {0}) → Fate E A × S → Fate E A × S
finally_with cleanup (r, s) = unless_failed r (cleanup s)

-- `try { body } finally { cleanup }`: an error of the cleanup replaces what the body did
abbrev pub try_finally : {S E A : Type 0} → Io S E A → Io S E (Unit {0}) → Io S E A
try_finally body cleanup s = finally_with cleanup (body s)
