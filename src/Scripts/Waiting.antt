-- ===== src/Scripts/Waiting.antt =====
-- How long the checks wait for the server.
use moaje_work.Prelude.{
  ℕ, zero, suc, ◌+◌, ◌-◌, ◌*◌, ◌≤◌, ◌<◌, ◌≡◌, ◌↔◌, refl, Bool, true, false, Option, some, ltb,
  arith, Bool-cases, inl, inr, ◌==◌,
}
use moaje_work.Scripts.{is_up, wait_for_server}

module _ (timeout : ℕ) (elapsed : ℕ → ℕ) (reply : ℕ → Option ℕ) where
  -- From round r on, the server answers in time.
  abbrev AnswersFrom : ℕ → Type 0
  AnswersFrom r = (i : ℕ) × (r ≤ i) × (elapsed i < timeout) × (is_up (reply i) ≡ true)

  abbrev Waits : Option Bool → ℕ → Type 0
  Waits result r = (b : Bool) × (result ≡ some b) × ((b ≡ true) ↔ AnswersFrom r)

  later : ((i : ℕ) → elapsed i + 1000 ≤ elapsed (i + 1)) → (r k : ℕ) → elapsed r ≤ elapsed (r + k)
  later step r zero = let same : r + 0 ≡ r = omega arith in rw same (omega arith)
  later step r (suc k) =
      let same : r + suc k ≡ r + k + 1 = omega arith in
      rw same (omega (arith, later step r k, step (r + k)))

  not_before :
      ((i : ℕ) → elapsed i + 1000 ≤ elapsed (i + 1)) → (r i : ℕ) → r ≤ i → elapsed r ≤ elapsed i
  not_before step r i h =
      let same : r + (i - r) ≡ i = omega (arith, h) in rw same at (later step r (i - r))

  over_by :
      ((i : ℕ) → elapsed i + 1000 ≤ elapsed (i + 1))
      → (r : ℕ) → timeout ≤ elapsed r
      → (false ≡ true) ↔ AnswersFrom r
  over_by step r h = (
    λ e. cc,
    λ (i, from, before, up). absurd (omega (arith, h, before, not_before step r i from)),
  )

  next_round :
      (b : Bool) (r : ℕ)
      → elapsed r < timeout
      → is_up (reply r) ≡ false
      → ((b ≡ true) ↔ AnswersFrom (r + 1))
      → (b ≡ true) ↔ AnswersFrom r
  next_round b r early down (f, g) = (
    λ t. let (i, from, before, up) = f t in (i, omega (arith, from), before, up),
    λ (i, from, before, up). elim (Bool-cases (i == r)) [
      | inl now ↦ let same : i ≡ r = ground (arith, now) in let again = rw same at up in cc
      | inr after ↦ g (i, ground (arith, from, after), before, up)
    ],
  )

  wait_from :
      ((i : ℕ) → elapsed i + 1000 ≤ elapsed (i + 1))
      → (fuel r : ℕ) → timeout ≤ elapsed r + fuel * 1000
      → Waits (wait_for_server timeout elapsed reply (suc fuel) r) r
  unfolding wait_for_server
  wait_from step zero r h =
      let over : ltb (elapsed r) timeout ≡ false = ground (arith, h) in
      rw over (false, refl, over_by step r (omega (arith, h)))
  wait_from step (suc fuel) r h = elim (Bool-cases (ltb (elapsed r) timeout)) [
    | inr over ↦ rw over (false, refl, over_by step r (ground (arith, over)))
    | inl early ↦ elim (Bool-cases (is_up (reply r))) [
      | inl up ↦
          rw (early, up)
            (true, refl, ((λ e. (r, omega arith, ground (arith, early), up)), λ e. refl))
      | inr down ↦
          let (b, ends, known) = wait_from step fuel (r + 1) (omega (arith, h, step r)) in
          (b, rw (early, down) ends, next_round b r (ground (arith, early)) down known)
    ]
  ]

  -- Where each round takes a second at least, one round more than the seconds of the timeout is
  -- enough for the loop to end, and it tells that the server is up exactly when the server gives a
  -- status below 500 in some round that starts before the timeout.
  pub wait_ends :
      (seconds : ℕ)
      → timeout ≡ seconds * 1000
      → ((i : ℕ) → elapsed i + 1000 ≤ elapsed (i + 1))
      → (b : Bool) × (wait_for_server timeout elapsed reply (suc seconds) 0 ≡ some b)
        × ((b ≡ true) ↔ ((i : ℕ) × (elapsed i < timeout) × (is_up (reply i) ≡ true)))
  wait_ends seconds h step =
      let (b, ends, known) = wait_from step seconds 0 (omega (arith, h)) in
      (
        b,
        ends,
        (
          (λ t. let (i, from, before, up) = known.0 t in (i, before, up)),
          λ (i, before, up). known.1 (i, omega arith, before, up),
        ),
      )
