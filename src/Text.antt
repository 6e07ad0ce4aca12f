-- ===== src/Text.antt =====
-- JavaScript strings as lists of code units, and the operations of the language that the
-- dashboard and the visualiser use: `substring`, the decimal text of a number, and `parseInt`.
pub mod Decimal
use Prim.Native.String.{String}
use Prim.Native.Char.{code}
use prism_rust_vivek.Prelude.{
  ℕ, zero, suc, ◌+◌, ◌-◌, ◌*◌, ◌/◌, ◌%◌, List, [], ◌∷◌, ◌++◌, Option, none, some, Bool, true, false,
  ltb, leb, ◌==◌, ◌&&◌, ◌^◌, any, if◌then◌else◌, take, drop, nat_eq,
}

abbrev pub Text : Type 0
Text = List ℕ

abbrev pub text : String → Text
text String.[] = []
text (String.◌∷◌ c s) = code c ∷ text s

-- `s.substring(a, b)` for `a ≤ b`: both ends are clamped to the length.
unfoldable pub substring : ℕ → ℕ → Text → Text
substring a b s = take (b - a) (drop a s)

-- `fuel` digits at most; `suc n` is enough for `n`.
unfoldable pub decimal_fuel : ℕ → ℕ → Text
decimal_fuel zero n = []
decimal_fuel (suc fuel) n =
    let front = decimal_fuel fuel (n / 10) in
    if ltb n 10 then (48 + n) ∷ [] else front ++ (48 + n % 10) ∷ []

unfoldable pub decimal : ℕ → Text
unfolding decimal_fuel
decimal n = decimal_fuel (suc n) n

unfoldable pub is_digit : ℕ → Bool
is_digit c = leb 48 c && leb c 57

-- What `parseInt` returns: `NaN`, or a sign and a size; `infinite true` is below 0.
pub data Number : Type 0 where
  nan : Number
  nonneg : ℕ → Number
  negative : ℕ → Number
  infinite : Bool → Number

-- The double that is nearest to a number, and the even one of two: `step` is the distance of the
-- doubles, doubled until 53 bits are enough. `none` is above all doubles.
unfoldable pub round_to : ℕ → ℕ → ℕ → Option ℕ
round_to zero step n = none
round_to (suc fuel) step n =
    let rest = round_to fuel (2 * step) n in
    let low = n / step in
    let over = 2 * (n % step) in
    let up = if ltb step over then true else over == step && low % 2 == 1 in
    if ltb low (2 ^ 53) then some (if up then (low + 1) * step else low * step) else rest

-- The doubles reach up to 53 bits times 2 ^ 971.
abbrev pub finite : Option ℕ → Option ℕ
finite none = none
finite (some d) = if ltb d (2 ^ 1024) then some d else none

unfoldable pub to_double : ℕ → Option ℕ
unfolding round_to
to_double n = finite (round_to 972 1 n)

-- The digits at the front of a text; `none` while there is none.
unfoldable pub digits : Option ℕ → Text → Option ℕ
unfolding is_digit
digits seen [] = seen
digits seen (c ∷ s) =
    let more = digits (some (elim seen [ none ↦ c - 48 | some n ↦ n * 10 + (c - 48) ])) s in
    if is_digit c then more else seen

-- the white space and the line ends of the language
unfoldable pub is_space : ℕ → Bool
is_space c =
    if c == 32
    then true
    else if leb 9 c && leb c 13
    then true
    else if leb 8192 c && leb c 8202
    then true
    else any (λ x. c == x) (160 ∷ 5760 ∷ 8232 ∷ 8233 ∷ 8239 ∷ 8287 ∷ 12288 ∷ 65279 ∷ [])

unfoldable pub trim_start : Text → Text
unfolding is_space
trim_start [] = []
trim_start (c ∷ s) = let rest = trim_start s in if is_space c then rest else c ∷ s

unfoldable pub signed : Bool → Option ℕ → Number
unfolding to_double
signed minus none = nan
signed minus (some n) = elim (to_double n) [
  | none ↦ infinite minus
  | some d ↦ if minus then negative d else nonneg d
]

abbrev pub parse_sign : Text → Number
parse_sign [] = nan
parse_sign (c ∷ s) =
    if c == b'-'
    then signed true (digits none s)
    else if c == b'+'
    then signed false (digits none s)
    else signed false (digits none (c ∷ s))

-- `parseInt(s, 10)`, with all digits read
unfoldable pub parse_int : Text → Number
unfolding trim_start digits
parse_int s = parse_sign (trim_start s)
