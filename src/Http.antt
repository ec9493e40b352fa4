-- ===== src/Http.antt =====
-- What a request handler can throw: the exceptions of @nestjs/common that the services raise, and
-- Prisma's known request errors by their code; `failure` is a plain `Error`. `exhausted` is the
-- model's own: a loop whose fuel ran out.
use secondhand_api.Prelude.{String, ◌≡◌, refl, ◌⊎◌, inl, inr}

pub data Exception : Type 0 where
  bad_request unauthorized forbidden not_found conflict : String → Exception
  prisma_error : String → Exception
  failure : String → Exception
  exhausted : Exception

pub data Result {ℓ} (A : Type ℓ) : Type ℓ where
  ok : A → Result A
  err : Exception → Result A

pub Result-cases {ℓ} :
    {A : Type ℓ} (r : Result A) → ((a : A) × (r ≡ ok a)) ⊎ ((e : Exception) × (r ≡ err e))
Result-cases (ok a) = inl (a, refl)
Result-cases (err e) = inr (e, refl)

-- error.message
abbrev pub message_of : Exception → String
message_of (bad_request m) = m
message_of (unauthorized m) = m
message_of (forbidden m) = m
message_of (not_found m) = m
message_of (conflict m) = m
message_of (prisma_error code) = code
message_of (failure m) = m
message_of exhausted = ""
