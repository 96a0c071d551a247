-- ===== src/Consumer/Ids.antt =====
-- The ids that the consumer reads from messages against those that the header authenticates.
use moaje_work.Prelude.{
  ℕ, ◌+◌, ◌-◌, ◌*◌, ◌≤◌, ◌<◌, ◌≡◌, refl, true, false, ◌||◌, not, Option, some, List, [], ◌∷◌, ◌==◌,
  leb, length, count, count-le-length, arith, pos, le→leb,
}
use moaje_work.Text.{strip, digits_from, python_int, int_of_stripped}
use moaje_work.Database.{ok}
use moaje_work.Access.{is_digit, all_digits, int_from, get_authenticated_user_id}
use moaje_work.Access.Header.{parsed, and_parts}
use moaje_work.Consumer.{text, to_user_id}

-- The ten ASCII digits have their values.
abbrev pub ReadsAscii : (ℕ → Option ℕ) → Type 0
ReadsAscii digit_value = (d : ℕ) → d < 10 → digit_value (48 + d) ≡ some d

nonempty : (raw : List ℕ) → 1 ≤ int_from 0 raw → 1 ≤ length raw
nonempty [] h = h
nonempty (c ∷ cs) h = omega arith

module _ (digit_value : ℕ → Option ℕ) (ascii : ReadsAscii digit_value) where
  digit_value-code : (c : ℕ) → is_digit c ≡ true → digit_value c ≡ some (c - 48)
  digit_value-code c h =
      let same : 48 + (c - 48) ≡ c = ground (arith, h) in
      rw same at (ascii (c - 48) (ground (arith, h)))

  digits_from-digits :
      (v : ℕ) (cs : List ℕ)
      → all_digits cs ≡ true
      → digits_from digit_value v true cs ≡ some (int_from v cs)
  unfolding digits_from
  digits_from-digits v [] h = refl
  digits_from-digits v (c ∷ cs) h =
      let (digit, rest) = and_parts (is_digit c) (all_digits cs) h in
      let plain : (c == 95) ≡ false = ground (arith, digit) in
      rw (plain, digit_value-code c digit) (digits_from-digits (v * 10 + (c - 48)) cs rest)

  int_of-digits :
      (c : ℕ) (cs : List ℕ)
      → all_digits (c ∷ cs) ≡ true
      → int_of_stripped digit_value (c ∷ cs) ≡ some (pos (int_from 0 (c ∷ cs)))
  unfolding int_of_stripped
  int_of-digits c cs all =
      let (digit, rest) = and_parts (is_digit c) (all_digits cs) all in
      let no_minus : (c == 45) ≡ false = ground (arith, digit) in
      let no_plus : (c == 43) ≡ false = ground (arith, digit) in
      let plain : (c == 95) ≡ false = ground (arith, digit) in
      rw
        (
          no_minus,
          no_plus,
          plain,
          digit_value-code c digit,
          digits_from-digits (0 * 10 + (c - 48)) cs rest,
        )
        refl

  python_int-digits :
      (written raw : List ℕ)
      → strip written ≡ raw
      → 1 ≤ length raw
      → length raw ≤ 19
      → all_digits raw ≡ true
      → python_int digit_value written ≡ some (pos (int_from 0 raw))
  unfolding python_int
  python_int-digits written [] e long short all = absurd (omega arith)
  python_int-digits written (c ∷ cs) e long short all =
      let few = count-le-length (λ d. not (d == 95 || (d == 45 || d == 43))) (c ∷ cs) in
      let read : leb (count (λ d. not (d == 95 || (d == 45 || d == 43))) (c ∷ cs)) 4300 ≡ true =
        le→leb _ 4300 (omega (arith, few)) in
      rw (e, read) (int_of-digits c cs all)

  -- The consumer reads a text that the header accepts as the id that the header gives it.
  pub to_user_id_as_header :
      (c : ℕ) (cs : List ℕ) (user : ℕ)
      → get_authenticated_user_id (some (c ∷ cs)) ≡ ok user
      → to_user_id digit_value (text c cs) ≡ some (pos user)
  unfolding to_user_id get_authenticated_user_id
  to_user_id_as_header c cs user h =
      let raw = strip (c ∷ cs) in
      let (positive, value, short, digits) = parsed raw user h in
      rw value at (
        python_int-digits (c ∷ cs) raw refl (nonempty raw (omega (arith, positive, value))) short
          digits)
