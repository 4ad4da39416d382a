-- ===== src/Chain/Tests/Layouts.antt =====
-- An event in its layout, with little-endian numbers and addresses of one byte.
use cancel_chain.Common.{
  ℕ, zero, suc, ◌+◌, ◌*◌, ◌/◌, ◌%◌, ◌≡◌, refl, ap, String, List, [], ◌∷◌, ◌++◌, arith, length,
  length-append, take, drop, All, str_eq, if◌then◌else◌, ◌==◌,
}
use cancel_chain.Common.Int.{pos}
use cancel_chain.Chain.Events.{
  SubscriptionCancelledEvent, cancelled, Codec, event, read_program_event, encode_program_event,
}
use cancel_chain.Chain.Events.Trip.{IsKept}
use cancel_chain.Chain.Events.Layouts.{Kit, layouts}
use cancel_chain.Chain.Events.Fields.{IsKit, KeepsFields, read-layouts}

-- So many bytes, the lowest first.
abbrev low_first : ℕ → ℕ → List ℕ
low_first zero n = []
low_first (suc k) n = n % 256 ∷ low_first k (n / 256)

abbrev from_low : List ℕ → ℕ
from_low [] = 0
from_low (b ∷ bytes) = b + 256 * from_low bytes

abbrev pair : {A B : Type 0} → Codec A → Codec B → Codec (A × B)
pair a b = record {
  fixed_size = a.fixed_size + b.fixed_size;
  encode = λ x. a.encode (x.0) ++ b.encode (x.1);
  decode = λ bytes. (a.decode (take a.fixed_size bytes), b.decode (drop a.fixed_size bytes));
}

abbrev items : {A : Type 0} → ℕ → Codec A → List ℕ → List A
items zero a bytes = []
items (suc n) a bytes = a.decode (take a.fixed_size bytes) ∷ items n a (drop a.fixed_size bytes)

abbrev bytes_of : {A : Type 0} → Codec A → List A → List ℕ
bytes_of a [] = []
bytes_of a (x ∷ xs) = a.encode x ++ bytes_of a xs

abbrev repeat : {A : Type 0} → ℕ → Codec A → Codec (List A)
repeat n a = record { fixed_size = n * a.fixed_size; encode = bytes_of a; decode = items n a }

abbrev name_of : List ℕ → String
name_of [] = ""
name_of (b ∷ bytes) = if b == 1 then "plan" else "wallet"

abbrev kit : Kit
kit = record {
  address = record {
    fixed_size = 1;
    encode = λ s. (if str_eq s "plan" then 1 else 2) ∷ [];
    decode = name_of;
  };
  u64 = record { fixed_size = 8; encode = low_first 8; decode = from_low };
  i64 = record {
    fixed_size = 8;
    encode = λ z. elim z [ pos n ↦ low_first 8 n | _ ↦ low_first 8 0 ];
    decode = λ bytes. pos (from_low bytes);
  };
  u8 = record { fixed_size = 1; encode = low_first 1; decode = from_low };
  pair = pair;
  repeat = repeat;
}

take_own : (n : ℕ) (xs ys : List ℕ) → length xs ≡ n → take n (xs ++ ys) ≡ xs
take_own zero [] ys h = refl
take_own zero (x ∷ xs) ys h = absurd (omega (arith, h))
take_own (suc n) [] ys h = absurd (omega (arith, h))
take_own (suc n) (x ∷ xs) ys h = ap (λ t. x ∷ t) (take_own n xs ys (omega (arith, h)))

drop_own : (n : ℕ) (xs ys : List ℕ) → length xs ≡ n → drop n (xs ++ ys) ≡ ys
drop_own zero [] ys h = refl
drop_own zero (x ∷ xs) ys h = absurd (omega (arith, h))
drop_own (suc n) [] ys h = absurd (omega (arith, h))
drop_own (suc n) (x ∷ xs) ys h = drop_own n xs ys (omega (arith, h))

repeat_keeps :
    {A : Type 0} (n : ℕ) (a : Codec A) (xs : List A)
    → length xs ≡ n
    → All (IsKept a) xs
    → IsKept (repeat n a) xs
repeat_keeps zero a [] long h = record { round_trip = refl; sized = omega arith }
repeat_keeps zero a (x ∷ xs) long h = absurd (omega (arith, long))
repeat_keeps (suc n) a [] long h = absurd (omega (arith, long))
repeat_keeps (suc n) a (x ∷ xs) long (k, h) =
    let rest = repeat_keeps n a xs (omega (arith, long)) h in
    record {
      round_trip =
          rw
            (
              take_own a.fixed_size (a.encode x) (bytes_of a xs) k.sized,
              drop_own a.fixed_size (a.encode x) (bytes_of a xs) k.sized,
              k.round_trip,
              rest.round_trip,
            )
            refl;
      sized = omega (arith, length-append (a.encode x) (bytes_of a xs), k.sized, rest.sized);
    }

pairs-IsKit : IsKit kit
pairs-IsKit = record {
  pair_keeps = λ a b x y k l. record {
    round_trip =
        rw
          (
            take_own a.fixed_size (a.encode x) (b.encode y) k.sized,
            drop_own a.fixed_size (a.encode x) (b.encode y) k.sized,
            k.round_trip,
            l.round_trip,
          )
          refl;
    sized = omega (arith, length-append (a.encode x) (b.encode y), k.sized, l.sized);
  };
  repeat_keeps = repeat_keeps;
}

abbrev cancellation : SubscriptionCancelledEvent
cancellation = record { plan = "plan"; subscriber = "wallet"; expires_at_ts = pos 1_790_000_000 }

cancellation-kept : KeepsFields kit (cancelled cancellation)
cancellation-kept = (
  record { round_trip = refl; sized = refl },
  record { round_trip = refl; sized = refl },
  record { round_trip = refl; sized = refl },
)

read-layouts_example :
    read_program_event (layouts kit) (encode_program_event (layouts kit) (cancelled cancellation))
    ≡ event (cancelled cancellation)
read-layouts_example = read-layouts kit pairs-IsKit (cancelled cancellation) cancellation-kept
