-- ===== src/Base/Numerals.antt =====
-- The decimal digits that `%d` prints, and reading them back.
use Prim.Native.Nat.{ℕ, zero, suc, ◌+◌, ◌-◌, ◌*◌, ◌/◌, ◌%◌, ◌≤◌}
use mathlib.Core.Path.{◌≡◌, refl, ap, sym, ◌∙◌}
use mathlib.Core.Bool.{true, false}
use mathlib.Core.List.{[], ◌∷◌, ◌++◌}
use native.Mathlib.Omega.{arith}
use homepad_api.Base.Tests.{ltb}
use homepad_api.Base.Texts.{Text}

-- `fuel` is at least the number of digits less one.
digits : ℕ → ℕ → Text
digits zero n = (b'0' + n % 10) ∷ []
digits (suc fuel) n = elim (ltb n 10) [
  | true ↦ (b'0' + n) ∷ []
  | false ↦ digits fuel (n / 10) ++ (b'0' + n % 10) ∷ []
]

-- `strconv.Itoa`: a number has fewer digits than its value, or one.
unfoldable pub decimal : ℕ → Text
unfolding digits
decimal n = digits n n

read_from : ℕ → Text → ℕ
read_from acc [] = acc
read_from acc (c ∷ cs) = read_from (acc * 10 + (c - b'0')) cs

read_from-append :
    (acc c : ℕ) (cs : Text) → read_from acc (cs ++ c ∷ []) ≡ read_from acc cs * 10 + (c - b'0')
unfolding read_from
read_from-append acc c [] = refl
read_from-append acc c (d ∷ ds) = read_from-append (acc * 10 + (d - b'0')) c ds

read_from-digits : (fuel n : ℕ) → n ≤ fuel → read_from 0 (digits fuel n) ≡ n
unfolding digits read_from
read_from-digits zero n h = omega arith
read_from-digits (suc fuel) n h = ground (
  arith,
  read_from-append 0 (b'0' + n % 10) (digits fuel (n / 10)),
  read_from-digits fuel (n / 10),
)

-- Two numbers with the same digits are the same.
pub decimal_injective : (m n : ℕ) → decimal m ≡ decimal n → m ≡ n
unfolding decimal
decimal_injective m n h =
    sym (read_from-digits m m (omega arith))
    ∙ ap (read_from 0) h
    ∙ read_from-digits n n (omega arith)
