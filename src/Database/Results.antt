-- ===== src/Database/Results.antt =====
-- To split on the result of a fallible call and keep the equation.
use moaje_work.Prelude.{◌≡◌, refl, ◌⊎◌, inl, inr}
use moaje_work.Database.{Result, ok, err, Error}

pub Result-cases {ℓ} :
    {A : Type ℓ} (r : Result A) → ((a : A) × (r ≡ ok a)) ⊎ ((e : Error) × (r ≡ err e))
Result-cases (ok a) = inl (a, refl)
Result-cases (err e) = inr (e, refl)
