-- ===== src/Core/Result.antt =====
-- What a call that may raise returns.
use fuze.Core.Errors.{Error}

pub data Result {ℓ} (A : Type ℓ) : Type ℓ where
  ok : A → Result A
  err : Error → Result A
