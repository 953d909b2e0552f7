-- ===== src/Base/Texts.antt =====
-- Text that the source walks, as a list of code points, with the parts of Go's `strings` and
-- `unicode` packages that it uses.
use Prim.Native.Nat.{ℕ, ◌+◌}
use Prim.Native.Char.{code}
use Prim.Native.String.{String}
use mathlib.Core.Path.{◌≡◌}
use mathlib.Core.Logic.{◌↔◌}
use mathlib.Core.Bool.{Bool, true, false, ◌&&◌, ◌||◌}
use mathlib.Core.List.{List, [], ◌∷◌}
use native.Mathlib.Omega.{arith}
use homepad_api.Base.Tests.{Comparable, ◌==◌, nat_eq, leb, if◌then◌else◌}

abbrev pub Text : Type 0
Text = List ℕ

-- The code points of a literal.
abbrev pub codes : String → Text
codes String.[] = []
codes (String.◌∷◌ c s) = code c ∷ codes s

abbrev pub text_equals : Text → Text → Bool
text_equals [] [] = true
text_equals [] (b ∷ bs) = false
text_equals (a ∷ as_) [] = false
text_equals (a ∷ as_) (b ∷ bs) = a == b && text_equals as_ bs

pub text_equals_iff : (a b : Text) → (text_equals a b ≡ true) ↔ (a ≡ b)
text_equals_iff [] [] = ground arith
text_equals_iff [] (b ∷ bs) = ground arith
text_equals_iff (a ∷ as_) [] = ground arith
text_equals_iff (a ∷ as_) (b ∷ bs) = ground (arith, text_equals_iff as_ bs)

instance abbrev pub text_eq : Comparable Text
text_eq = record { equals = text_equals; equals_iff = text_equals_iff }

-- `unicode.IsSpace`
unfoldable pub is_space : ℕ → Bool
is_space c =
    (leb 9 c && leb c 13)
    || c == 32
    || c == 0x85
    || c == 0xA0
    || c == 0x1680
    || (leb 0x2000 c && leb c 0x200A)
    || c == 0x2028
    || c == 0x2029
    || c == 0x202F
    || c == 0x205F
    || c == 0x3000

unfoldable pub trim_left : (ℕ → Bool) → Text → Text
trim_left p [] = []
trim_left p (c ∷ cs) = let rest = trim_left p cs in if p c then rest else c ∷ cs

-- Drops the code points at the end that pass the test.
unfoldable pub trim_right : (ℕ → Bool) → Text → Text
trim_right p [] = []
trim_right p (c ∷ cs) = elim (trim_right p cs) [
  | [] ↦ if p c then [] else c ∷ []
  | d ∷ ds ↦ c ∷ d ∷ ds
]

-- `strings.TrimSpace`
unfoldable pub trim_space : Text → Text
unfolding trim_left trim_right is_space
trim_space s = trim_right is_space (trim_left is_space s)

-- `unicode.ToLower` as far as ASCII sees it: the capital letters, and the two other code points
-- whose lower case is ASCII.
unfoldable pub to_lower : ℕ → ℕ
to_lower c =
    if leb b'A' c && leb c b'Z'
    then c + 32
    else if c == 0x130
    then b'i'
    else if c == 0x212A
    then b'k'
    else c

trim_string_left : String → String
unfolding is_space
trim_string_left String.[] = String.[]
trim_string_left (String.◌∷◌ c s) =
    let rest = trim_string_left s in if is_space (code c) then rest else String.◌∷◌ c s

trim_string_right : String → String
unfolding is_space
trim_string_right String.[] = String.[]
trim_string_right (String.◌∷◌ c s) = elim (trim_string_right s) [
  | String.[] ↦ if is_space (code c) then String.[] else String.◌∷◌ c String.[]
  | String.◌∷◌ d t ↦ String.◌∷◌ c (String.◌∷◌ d t)
]

-- `strings.TrimSpace` on a native string.
unfoldable pub trim_string : String → String
unfolding trim_string_left trim_string_right
trim_string s = trim_string_right (trim_string_left s)
