-- ===== src/Prelude/Update.antt =====
-- Look-ups in a table after an update in place and after an insertion.
use mathlib.Core.Path.{◌≡◌, refl}
use mathlib.Core.Bool.{Bool, true, false}
use mathlib.Core.Option.{some}
use mathlib.Core.List.{List, [], ◌∷◌, ◌++◌}
use native.Mathlib.Omega.{arith}
use moaje_work.Prelude.Lists.{find, update_where}

module _ {R : Type 0} (same : R → Bool) (write : R → R)
    (keeps : (r : R) → same r ≡ true → same (write r) ≡ true) where
  pub find-update_where :
      (rows : List R) (row : R)
      → find same rows ≡ some row
      → find same (update_where same write rows) ≡ some (write row)
  find-update_where [] row h = cc
  find-update_where (r ∷ rows) row h = ground (arith, keeps r, find-update_where rows row)

module _ {R : Type 0} (same other : R → Bool) (write : R → R)
    (apart : (r : R) → same r ≡ true → (other r ≡ false) × (other (write r) ≡ false)) where
  pub find-update_other :
      (rows : List R) → find other (update_where same write rows) ≡ find other rows
  find-update_other [] = refl
  find-update_other (r ∷ rows) = ground (arith, apart r, find-update_other rows)

pub find-append_other {ℓ} :
    {R : Type ℓ} (p : R → Bool) (rows : List R) (new : R)
    → p new ≡ false
    → find p (rows ++ new ∷ []) ≡ find p rows
find-append_other p [] new h = rw h
find-append_other p (r ∷ rows) new h = ground (arith, find-append_other p rows new h)
