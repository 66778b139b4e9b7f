-- ===== src/Common/Promises.antt =====
-- How a promise settles: with a value, or with the value that was thrown.
pub data Settled {ℓ κ} (E : Type ℓ) (A : Type κ) : Type (ℓ ⊔ κ) where
  resolved : A → Settled E A
  rejected : E → Settled E A
