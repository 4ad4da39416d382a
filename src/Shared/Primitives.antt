-- ===== src/Shared/Primitives.antt =====
-- packages/shared/src/primitives.ts: addresses, and amounts that travel as decimal text.
-- A text is the list of its character codes here.
pub mod Decimal
use Prim.Native.Char.{code}
use Prim.Native.String
use cancel_chain.Common.{
  ℕ, zero, suc, ◌+◌, ◌-◌, ◌*◌, ◌/◌, ◌%◌, String, Bool, true, false, ◌&&◌, ◌||◌, List, [], ◌∷◌, ◌++◌,
  ltb, leb, ◌==◌, if◌then◌else◌, length, all, Result, ok, throw,
}

abbrev pub u64_max : ℕ
u64_max = 18_446_744_073_709_551_615

-- `Number.MAX_SAFE_INTEGER`
abbrev pub max_safe_integer : ℕ
max_safe_integer = 9_007_199_254_740_991

abbrev pub codes : String → List ℕ
codes String.[] = []
codes (String.◌∷◌ c s) = code c ∷ codes s

unfoldable pub is_base58 : ℕ → Bool
is_base58 c =
    (leb b'1' c && leb c b'9')
    || (leb b'A' c && leb c b'H')
    || (leb b'J' c && leb c b'N')
    || (leb b'P' c && leb c b'Z')
    || (leb b'a' c && leb c b'k')
    || (leb b'm' c && leb c b'z')

-- `BASE58_ADDRESS`: 32 to 44 characters of base58.
unfoldable pub is_address : String → Bool
unfolding is_base58
is_address s = all is_base58 (codes s) && leb 32 (length (codes s)) && leb (length (codes s)) 44

unfoldable pub is_digit : ℕ → Bool
is_digit c = leb b'0' c && leb c b'9'

-- `DECIMAL_U64`: a decimal number with no leading zero.
unfoldable pub is_decimal : List ℕ → Bool
unfolding is_digit
is_decimal [] = false
is_decimal (c ∷ cs) = if c == b'0' then length cs == 0 else is_digit c && all is_digit cs

unfoldable pub value_from : ℕ → List ℕ → ℕ
value_from acc [] = acc
value_from acc (c ∷ cs) = value_from (acc * 10 + (c - 48)) cs

-- `toU64`, that is `BigInt(value)` on decimal text.
unfoldable pub to_u64 : List ℕ → ℕ
unfolding value_from
to_u64 value = value_from 0 value

-- `u64Schema`
unfoldable pub u64_schema : List ℕ → Bool
unfolding is_decimal to_u64
u64_schema value = is_decimal value && leb (to_u64 value) u64_max

-- `value.toString(10)`, on fuel above the value.
unfoldable pub print : ℕ → ℕ → List ℕ
print zero n = []
print (suc f) n =
    let rest = print f (n / 10) in if ltb n 10 then (n + 48) ∷ [] else rest ++ ((n % 10 + 48) ∷ [])

pub data RangeError : Type 0 where
  does_not_fit : ℕ → RangeError

-- `fromU64`; a natural number is never negative.
unfoldable pub from_u64 : ℕ → Result RangeError (List ℕ)
unfolding print
from_u64 value =
    if ltb u64_max value then throw (does_not_fit value) else ok (print (suc value) value)
