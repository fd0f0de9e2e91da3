-- ===== src/State.antt =====
-- Methods of an object as functions that return a value and the new state (src/mysqlapi.cpp).
use dbsqlapi.Prelude.{Bool, ℤ, is_neg, if◌then◌else◌}

abbrev pub St : Type 0 → Type 0 → Type 0
St S A = S → A × S

module _ {S A : Type 0} where
  unfoldable pub pure : A → St S A
  pure a s = (a, s)

  -- The result is computed once.
  abbrev pub hand_over : {B : Type 0} → A × S → (A → St S B) → B × S
  hand_over r k = k r.0 r.1

  infixl 5 ◌>>=◌
  unfoldable pub ◌>>=◌ : {B : Type 0} → St S A → (A → St S B) → St S B
  ◌>>=◌ m k s = hand_over (m s) k

  infixl 5 ◌>>◌
  unfoldable pub ◌>>◌ : St S (Unit {0}) → St S A → St S A
  ◌>>◌ m k s = k (m s).1

-- A test that chooses between two methods.
infix 1 when◌run◌otherwise◌
unfoldable pub when◌run◌otherwise◌ : {S A : Type 0} → Bool → St S A → St S A → St S A
when◌run◌otherwise◌ b m k s = if b then m s else k s

-- `if(op()<0) { failed } next`
unfoldable pub stage : {S A : Type 0} → St S ℤ → St S A → St S A → St S A
stage op failed next = do r ← op; when is_neg r run failed otherwise next
