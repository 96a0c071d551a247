-- ===== src/Access/Header.antt =====
-- Which headers name a user.
use moaje_work.Prelude.{
  ℕ, zero, suc, ◌+◌, ◌-◌, ◌*◌, ◌/◌, ◌%◌, ◌^◌, ◌≤◌, ◌<◌, ◌≡◌, refl, ap, ◌∙◌, Bool, true, false, ◌&&◌,
  some, List, [], ◌∷◌, ◌++◌, ltb, leb, if◌then◌else◌, length, length-append, arith, Bool-cases, inl,
  inr,
}
use moaje_work.Database.{ok}
use moaje_work.Text.{is_space, strip_left, strip_right, strip}
use moaje_work.Access.{
  parse_user_id, is_digit, all_digits, is_user_id, int_from, get_authenticated_user_id,
}

-- `str(n)` of a number with at most the given count of digits, as code points.
unfoldable pub print_id : ℕ → ℕ → List ℕ
print_id zero n = []
print_id (suc k) n =
    let front = print_id k (n / 10) in
    if ltb n 10 then (48 + n) ∷ [] else front ++ (48 + n % 10) ∷ []

int-append : (v c : ℕ) (cs : List ℕ) → int_from v (cs ++ c ∷ []) ≡ int_from v cs * 10 + (c - 48)
int-append v c [] = refl
int-append v c (d ∷ cs) = int-append (v * 10 + (d - 48)) c cs

digits-append : (c : ℕ) (cs : List ℕ) → all_digits (cs ++ c ∷ []) ≡ (all_digits cs && is_digit c)
digits-append c [] = ground arith
digits-append c (d ∷ cs) = ground (arith, digits-append c cs)

-- The power of ten that k digits stay below.
abbrev power : ℕ → ℕ
power zero = 1
power (suc k) = power k * 10

-- The power of ten after the digits of a list.
abbrev power_after : ℕ → List ℕ → ℕ
power_after k [] = power k
power_after k (c ∷ cs) = power_after (suc k) cs

last_digit : (n x : ℕ) → x ≡ n / 10 → x * 10 + (48 + n % 10 - 48) ≡ n
last_digit n x h = omega (arith, h)

print-int : (k n : ℕ) → n < power (suc k) → int_from 0 (print_id (suc k) n) ≡ n
unfolding print_id
print-int zero n h = ground (arith, h)
print-int (suc k) n h = elim (Bool-cases (ltb n 10)) [
  | inl small ↦ rw (small, print_id) (omega arith)
  | inr large ↦
      rw (large, print_id)
        (int-append 0 (48 + n % 10) (print_id (suc k) (n / 10))
          ∙ last_digit n _ (print-int k (n / 10) (omega (arith, h))))
]

print-digits : (k n : ℕ) → all_digits (print_id k n) ≡ true
unfolding print_id
print-digits zero n = refl
print-digits (suc k) n =
    ground (arith, digits-append (48 + n % 10) (print_id k (n / 10)), print-digits k (n / 10))

print-length : (k n : ℕ) → length (print_id k n) ≤ k
unfolding print_id
print-length zero n = omega arith
print-length (suc k) n =
    ground
      (arith, print-length k (n / 10), length-append (print_id k (n / 10)) ((48 + n % 10) ∷ []))

print_pos : (k n : ℕ) → 1 ≤ length (print_id (suc k) n)
unfolding print_id
print_pos k n = ground (arith, length-append (print_id k (n / 10)) ((48 + n % 10) ∷ []))

pub and_parts : (a b : Bool) → (a && b) ≡ true → (a ≡ true) × (b ≡ true)
and_parts a b h = (ground arith, ground arith)

int_step : (v c k : ℕ) → is_digit c ≡ true → v < power k → v * 10 + (c - 48) < power (suc k)
int_step v c k d h = ground (arith, d, h)

int-bound :
    (v k : ℕ) (cs : List ℕ) → all_digits cs ≡ true → v < power k → int_from v cs < power_after k cs
int-bound v k [] h b = b
int-bound v k (c ∷ cs) h b =
    let (digit, rest) = and_parts (is_digit c) (all_digits cs) h in
    int-bound (v * 10 + (c - 48)) (suc k) cs rest (int_step v c k digit b)

power-length : (k : ℕ) (cs : List ℕ) → power_after k cs ≡ power (k + length cs)
power-length k [] = ap power (omega arith)
power-length k (c ∷ cs) = power-length (suc k) cs ∙ ap power (omega arith)

power-le : (k n : ℕ) → k ≤ n → power k ≤ power n
power-le k zero h = let same : k ≡ zero = omega (arith, h) in rw same (omega arith)
power-le k (suc n) h = elim (Bool-cases (leb k n)) [
  | inl below ↦ ground (arith, power-le k n, below)
  | inr top ↦ let same : k ≡ suc n = ground (arith, h, top) in rw same (omega arith)
]

digit-space : (c : ℕ) → is_digit c ≡ true → is_space c ≡ false
digit-space c h = ground (arith, h)

strip_left-digits : (cs : List ℕ) → all_digits cs ≡ true → strip_left cs ≡ cs
strip_left-digits [] h = refl
strip_left-digits (c ∷ cs) h =
    let (digit, rest) = and_parts (is_digit c) (all_digits cs) h in rw (digit-space c digit) refl

strip_right-digits : (cs : List ℕ) → all_digits cs ≡ true → strip_right cs ≡ cs
strip_right-digits [] h = refl
strip_right-digits (c ∷ []) h = rw (digit-space c (ground (arith, h))) refl
strip_right-digits (c ∷ d ∷ cs) h =
    let (digit, rest) = and_parts (is_digit c) (all_digits (d ∷ cs)) h in
    rw (strip_right-digits (d ∷ cs) rest) refl

strip-digits : (cs : List ℕ) → all_digits cs ≡ true → strip cs ≡ cs
unfolding strip
strip-digits cs h = ap strip_right (strip_left-digits cs h) ∙ strip_right-digits cs h

pub parsed :
    (raw : List ℕ) (n : ℕ)
    → parse_user_id raw ≡ ok n
    → (1 ≤ n) × (int_from 0 raw ≡ n) × (length raw ≤ 19) × (all_digits raw ≡ true)
unfolding parse_user_id is_user_id
parsed raw n h = (ground arith, ground arith, ground arith, ground arith)

parse_digits :
    (raw : List ℕ)
    → 1 ≤ length raw
    → length raw ≤ 19
    → all_digits raw ≡ true
    → 1 ≤ int_from 0 raw
    → parse_user_id raw ≡ ok (int_from 0 raw)
unfolding parse_user_id is_user_id
parse_digits raw a b c d = ground (arith, a, b, c, d)

-- An id that is accepted is positive and has at most 19 digits.
pub authenticated_bounds :
    (header : List ℕ) (n : ℕ)
    → get_authenticated_user_id (some header) ≡ ok n
    → (1 ≤ n) × (n < 10 ^ 19)
unfolding get_authenticated_user_id
authenticated_bounds header n h =
    let raw = strip header in
    let (positive, value, short, digits) = parsed raw n h in
    let below = int-bound 0 0 raw digits (omega arith) in
    let power_of = power-length 0 raw in
    (
      positive,
      omega (arith, value, below, power_of, power-le (0 + length raw) 19 (omega (arith, short))),
    )

-- A positive id below 10^19 that is printed into the header is read back as itself.
pub print_authenticated :
    (n : ℕ) → 1 ≤ n → n < 10 ^ 19 → get_authenticated_user_id (some (print_id 19 n)) ≡ ok n
unfolding get_authenticated_user_id
print_authenticated n h b =
    let raw = print_id 19 n in
    let value : int_from 0 raw ≡ n = print-int 18 n b in
    let digits = print-digits 19 n in
    ap parse_user_id (strip-digits raw digits)
    ∙ parse_digits raw (print_pos 18 n) (print-length 19 n) digits (omega (arith, h, value))
    ∙ ap ok value
