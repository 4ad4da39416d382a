-- ===== src/Shared/Format.antt =====
-- packages/shared/src/format.ts: amounts and addresses for the eye. A text is the list of its
-- character codes.
pub mod Exact
use cancel_chain.Common.{
  ℕ, zero, suc, ◌+◌, ◌-◌, ◌*◌, ◌/◌, ◌%◌, ◌^◌, Bool, true, false, List, [], ◌∷◌, ◌++◌, ltb, leb,
  ◌==◌, if◌then◌else◌, length, take, drop,
}
use cancel_chain.Shared.Primitives.{print, codes}

abbrev pub usdc_decimals : ℕ
usdc_decimals = 6

abbrev pub min_fraction_digits : ℕ
min_fraction_digits = 2

-- `value.toString(10)`
unfoldable pub digits : ℕ → List ℕ
digits n = print (suc n) n

abbrev pub zeros : ℕ → List ℕ
zeros zero = []
zeros (suc n) = b'0' ∷ zeros n

-- `padStart(n, '0')` and `padEnd(n, '0')`
abbrev pub pad_start : ℕ → List ℕ → List ℕ
pad_start n text = zeros (n - length text) ++ text

abbrev pub pad_end : ℕ → List ℕ → List ℕ
pad_end n text = text ++ zeros (n - length text)

abbrev pub drop_zero : ℕ → List ℕ → List ℕ
drop_zero c [] = if c == b'0' then [] else c ∷ []
drop_zero c (d ∷ rest) = c ∷ d ∷ rest

-- `fraction.replace(/0+$/, '')`
unfoldable pub trim_end : List ℕ → List ℕ
trim_end [] = []
trim_end (c ∷ text) = drop_zero c (trim_end text)

abbrev pub max : ℕ → ℕ → ℕ
max a b = if leb a b then b else a

-- What follows the point: `slice(0, kept)`, filled up to two digits.
unfoldable pub shown_fraction : List ℕ → List ℕ
shown_fraction fraction =
    pad_end min_fraction_digits
      (take (max min_fraction_digits (length (trim_end fraction))) fraction)

unfoldable pub fraction_digits : ℕ → ℕ → List ℕ
fraction_digits amount decimals = pad_start decimals (digits (amount % 10 ^ decimals))

unfoldable pub scale_amount : ℕ → ℕ → List ℕ
scale_amount amount zero = digits amount
scale_amount amount (suc d) =
    digits (amount / 10 ^ suc d) ++ (b'.' ∷ shown_fraction (fraction_digits amount (suc d)))

-- `shortenAddress`: four characters of each end.
unfoldable pub shorten_address : List ℕ → List ℕ
shorten_address address =
    if leb (length address) 9
    then address
    else take 4 address ++ (codes "…" ++ drop (length address - 4) address)
