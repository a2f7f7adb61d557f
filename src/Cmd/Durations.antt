-- ===== src/Cmd/Durations.antt =====
-- What resolveForceDetachAfter uses of the package time: ParseDuration, over nanoseconds. The
-- part after a decimal point is computed in float64, which is a function that is given.
use docker_plugin_gce_pd.Prelude.{
  ℕ, zero, suc, ◌+◌, ◌-◌, ◌*◌, ◌/◌, ◌^◌, ◌%◌, Bool, true, false, ◌||◌, ◌&&◌, not, Option, none,
  some, [], ◌∷◌, ltb, leb, ◌==◌, if◌then◌else◌, length,
}
use docker_plugin_gce_pd.Prelude.Bytes.{Bytes, codes, str_eq}

-- A Duration: an int64, as its sign and its size.
pub record Duration : Type 0 where
  pub negative : Bool
  pub nanoseconds : ℕ

abbrev pub is_digit : ℕ → Bool
is_digit b = leb b'0' b && leb b b'9'

-- leadingInt, with the number so far; `none` is an overflow.
unfoldable pub leading_int : ℕ → Bytes → Option (ℕ × Bytes)
leading_int x [] = some (x, [])
leading_int x (b ∷ bs) =
    let rest = leading_int (x * 10 + (b - b'0')) bs in
    if not (is_digit b)
    then some (x, b ∷ bs)
    else if ltb (2 ^ 63 / 10) x || ltb (2 ^ 63) (x * 10 + (b - b'0'))
    then none
    else rest

-- The number and the power of ten of leadingFraction so far, and what follows the digits. After
-- an overflow the digits are skipped.
unfoldable pub leading_fraction : Bool → ℕ → ℕ → Bytes → (ℕ × ℕ) × Bytes
leading_fraction over x scale [] = ((x, scale), [])
leading_fraction over x scale (b ∷ bs) =
    let skipped = leading_fraction true x scale bs in
    let taken = leading_fraction false (x * 10 + (b - b'0')) (scale * 10) bs in
    if not (is_digit b)
    then ((x, scale), b ∷ bs)
    else if over || ltb ((2 ^ 63 - 1) / 10) x || ltb (2 ^ 63) (x * 10 + (b - b'0'))
    then skipped
    else taken

-- The bytes up to a digit or a point, and the others.
unfoldable pub unit_name : Bytes → Bytes × Bytes
unit_name [] = ([], [])
unit_name (b ∷ bs) =
    let rest = unit_name bs in
    if b == b'.' || is_digit b then ([], b ∷ bs) else (b ∷ rest.0, rest.1)

-- unitMap; the second and the third name of a microsecond are U+00B5 and U+03BC before an s.
unfoldable pub unit_of : Bytes → Option ℕ
unit_of u =
    if str_eq u (codes "ns")
    then some 1
    else if str_eq u (codes "us")
        || str_eq u (194 ∷ 181 ∷ b's' ∷ [])
        || str_eq u (206 ∷ 188 ∷ b's' ∷ [])
    then some 1_000
    else if str_eq u (codes "ms")
    then some 1_000_000
    else if str_eq u (codes "s")
    then some 1_000_000_000
    else if str_eq u (codes "m")
    then some 60_000_000_000
    else if str_eq u (codes "h")
    then some 3_600_000_000_000
    else none

-- The end of a round: the sum so far, what is left to read, and the number with its unit.
unfoldable pub add_part : ℕ → Bytes → Option ℕ → Option (ℕ × Bytes)
add_part d rest none = none
add_part d rest (some n) =
    let sum = (d + n) % 2 ^ 64 in if ltb (2 ^ 63) sum then none else some (sum, rest)

-- After the loop, with the sign.
unfoldable pub after_sum : Bool → Option ℕ → Option Duration
after_sum neg none = none
after_sum neg (some d) =
    if neg
    then some (record { negative = true; nanoseconds = d })
    else if ltb (2 ^ 63 - 1) d
    then none
    else some (record { negative = false; nanoseconds = d })

module _ (fraction : ℕ → ℕ → ℕ → ℕ) where
  -- One number with its unit; `fraction f scale unit` is the product of float64, converted.
  unfoldable pub add_fraction : ℕ → ℕ × ℕ → ℕ → Option ℕ
  add_fraction v (f, scale) unit =
      if ltb (2 ^ 63 / unit) v
      then none
      else if ltb 0 f
      then (let sum = (v * unit + fraction f scale unit) % 2 ^ 64 in
          if ltb (2 ^ 63) sum then none else some sum)
      else some (v * unit)

  -- After the digits: the unit's name, what follows it, and the sum so far.
  unfoldable pub with_unit : ℕ → ℕ → ℕ × ℕ → Bytes × Bytes → Option (ℕ × Bytes)
  unfolding unit_of add_fraction
  with_unit d v f (u, rest) = elim (unit_of u) [
    | none ↦ none
    | some unit ↦ add_part d rest (add_fraction v f unit)
  ]

  -- After leadingInt: `pre` tells whether it has consumed a byte.
  unfoldable pub after_int : ℕ → Bool → ℕ → Bytes → Option (ℕ × Bytes)
  unfolding with_unit
  after_int d pre v [] = none
  after_int d pre v (b ∷ bs) =
      if b == b'.'
      then (let fs = leading_fraction false 0 1 bs in
          if pre || not (length bs == length fs.1)
          then with_unit d v fs.0 (unit_name fs.1)
          else none)
      else if pre
      then with_unit d v (0, 1) (unit_name (b ∷ bs))
      else none

  -- A round of the loop: the sum with the next number, and what follows it.
  unfoldable pub next_part : ℕ → Bytes → Option (ℕ × Bytes)
  unfolding after_int
  next_part d s = elim (leading_int 0 s) [
    | none ↦ none
    | some (v, rest) ↦ after_int d (not (length rest == length s)) v rest
  ]

  -- The loop, with the sum so far. Each round consumes at least one byte.
  unfoldable pub sum_parts : ℕ → ℕ → Bytes → Option ℕ
  unfolding next_part
  sum_parts rounds d [] = some d
  sum_parts zero d (b ∷ bs) = none
  sum_parts (suc n) d (b ∷ bs) = elim (next_part d (b ∷ bs)) [
    | none ↦ none
    | some (d', rest) ↦ sum_parts n d' rest
  ]

  -- After the sign.
  unfoldable pub parse_unsigned : Bool → Bytes → Option Duration
  unfolding sum_parts
  parse_unsigned neg s =
      if str_eq s (codes "0")
      then some (record { negative = false; nanoseconds = 0 })
      else if str_eq s []
      then none
      else after_sum neg (sum_parts (length s) 0 s)

  -- ParseDuration; `none` is any of its errors.
  unfoldable pub parse_duration : Bytes → Option Duration
  unfolding parse_unsigned
  parse_duration [] = none
  parse_duration (b ∷ bs) =
      if b == b'-'
      then parse_unsigned true bs
      else if b == b'+'
      then parse_unsigned false bs
      else parse_unsigned false (b ∷ bs)
