-- ===== src/Session/UserAgent/Laws.antt =====
-- What a stored User-Agent is: within the cap, free of NUL and valid UTF-8.
use mathlib.Core.List.{append_assoc}
use homepad_api.Base.{
  ℕ, zero, suc, ◌≤◌, ◌<◌, ◌≡◌, refl, ap, ◌⊎◌, inl, inr, Bool, true, false, not, ◌&&◌, List, [], ◌∷◌,
  ◌++◌, ◌==◌, nat_eq, ltb, length, filter, any, arith, Bool-cases, if◌then◌else◌, length-append,
}
use homepad_api.Session.UserAgent.{
  between, rune_tail, valid_utf8_from, to_valid_utf8, take, max_user_agent_len, replacement,
  sanitize_user_agent,
}

length-take-le : (n : ℕ) (xs : List ℕ) → length (take n xs) ≤ n
length-take-le zero xs = omega arith
length-take-le (suc n) [] = omega arith
length-take-le (suc n) (x ∷ xs) = omega (arith, length-take-le n xs)

-- Dropping invalid bytes makes no text longer.
valid_utf8_from-length :
    (left : ℕ) (bad : Bool) (bs : List ℕ) → length (valid_utf8_from [] left bad bs) ≤ length bs
unfolding valid_utf8_from
valid_utf8_from-length left bad [] = ground arith
valid_utf8_from-length (suc left) bad (b ∷ bs) = omega (arith, valid_utf8_from-length left false bs)
valid_utf8_from-length zero bad (b ∷ bs) =
    ground
      (arith, valid_utf8_from-length (rune_tail b bs).1 false bs, valid_utf8_from-length 0 true bs)

capped :
    (n : ℕ) (clean : List ℕ)
    → length (if ltb n (length clean) then to_valid_utf8 [] (take n clean) else clean) ≤ n
unfolding to_valid_utf8
capped n clean =
    ground (arith, valid_utf8_from-length 0 false (take n clean), length-take-le n clean)

abbrev has_nul : List ℕ → Bool
has_nul bs = any (λ b. b == 0) bs

has_nul-append :
    (xs ys : List ℕ) → has_nul xs ≡ false → has_nul ys ≡ false → has_nul (xs ++ ys) ≡ false
has_nul-append [] ys h k = k
has_nul-append (x ∷ xs) ys h k = ground (arith, has_nul-append xs ys)

valid_utf8_from-nul :
    (repl : List ℕ) (left : ℕ) (bad : Bool) (bs : List ℕ)
    → has_nul repl ≡ false
    → has_nul bs ≡ false
    → has_nul (valid_utf8_from repl left bad bs) ≡ false
unfolding valid_utf8_from
valid_utf8_from-nul repl zero bad [] r h = refl
valid_utf8_from-nul repl (suc left) bad [] r h = refl
valid_utf8_from-nul repl (suc left) bad (b ∷ bs) r h =
    ground (arith, valid_utf8_from-nul repl left false bs r)
valid_utf8_from-nul repl zero bad (b ∷ bs) r h = ground (
  arith,
  valid_utf8_from-nul repl (rune_tail b bs).1 false bs r,
  valid_utf8_from-nul repl 0 true bs r,
  has_nul-append repl (valid_utf8_from repl 0 true bs) r,
)

has_nul-filter : (bs : List ℕ) → has_nul (filter (λ b. not (b == 0)) bs) ≡ false
has_nul-filter [] = refl
has_nul-filter (b ∷ bs) = ground (arith, has_nul-filter bs)

has_nul-take : (n : ℕ) (bs : List ℕ) → has_nul bs ≡ false → has_nul (take n bs) ≡ false
has_nul-take zero bs h = refl
has_nul-take (suc n) [] h = refl
has_nul-take (suc n) (b ∷ bs) h = ground (arith, has_nul-take n bs)

nul_free :
    (n : ℕ) (clean : List ℕ)
    → has_nul clean ≡ false
    → has_nul (if ltb n (length clean) then to_valid_utf8 [] (take n clean) else clean) ≡ false
unfolding to_valid_utf8
nul_free n clean h =
    ground (arith, valid_utf8_from-nul [] 0 false (take n clean) refl, has_nul-take n clean h)

-- A continuation byte.
abbrev IsTail : ℕ → Type 0
IsTail c = (0x80 ≤ c) × (c ≤ 0xBF)

-- The well-formed byte sequences of one scalar value, after the Unicode standard's table.
abbrev pub IsRune : List ℕ → Type 0
IsRune (b ∷ []) = b < 0x80
IsRune (b ∷ c ∷ []) = (0xC2 ≤ b) × (b ≤ 0xDF) × IsTail c
IsRune (b ∷ c ∷ d ∷ []) =
    (0xE0 ≤ b) × (b ≤ 0xEF) × IsTail c × IsTail d × (b ≡ 0xE0 → 0xA0 ≤ c) × (b ≡ 0xED → c ≤ 0x9F)
IsRune (b ∷ c ∷ d ∷ e ∷ []) =
    (0xF0 ≤ b)
    × (b ≤ 0xF4)
    × IsTail c
    × IsTail d
    × IsTail e
    × (b ≡ 0xF0 → 0x90 ≤ c)
    × (b ≡ 0xF4 → c ≤ 0x8F)
IsRune _ = ⊥

pub data IsUtf8 : List ℕ → Type 0 where
  end : IsUtf8 []
  rune : (r bs : List ℕ) → IsRune r → IsUtf8 bs → IsUtf8 (r ++ bs)

IsUtf8-append : {xs ys : List ℕ} → IsUtf8 xs → IsUtf8 ys → IsUtf8 (xs ++ ys)
IsUtf8-append end v = v
IsUtf8-append {ys} (rune r bs p u) v =
    rw (append_assoc r bs ys) (rune r (bs ++ ys) p (IsUtf8-append u v))

-- The rune that starts with `b` is refused, or its tail is there.
abbrev Split : ℕ → List ℕ → Type 0
Split b bs =
    ((rune_tail b bs).0 ≡ false)
    ⊎ ((r : List ℕ) × (rest : List ℕ) × (bs ≡ r ++ rest)
        × (rune_tail b bs ≡ (true, length r))
        × IsRune (b ∷ r))

Split-two : (b : ℕ) (bs : List ℕ) → 0x80 ≤ b → b < 0xE0 → Split b bs
unfolding rune_tail
Split-two b [] lo hi = inl (ground arith)
Split-two b (c ∷ rest) lo hi = elim (Bool-cases (between 0xC2 0xDF b && between 0x80 0xBF c)) [
  | inl fits ↦ inr (c ∷ [], rest, refl, ground arith, ground arith)
  | inr other ↦ inl (ground arith)
]

Split-three : (b : ℕ) (bs : List ℕ) → 0xE0 ≤ b → b < 0xF0 → Split b bs
unfolding rune_tail
Split-three b [] lo hi = inl (ground arith)
Split-three b (c ∷ []) lo hi = inl (ground arith)
Split-three b (c ∷ d ∷ rest) lo hi = elim (Bool-cases (rune_tail b (c ∷ d ∷ rest)).0) [
  | inl fits ↦ inr (c ∷ d ∷ [], rest, refl, ground arith, ground arith)
  | inr other ↦ inl other
]

Split-four : (b : ℕ) (bs : List ℕ) → 0xF0 ≤ b → Split b bs
unfolding rune_tail
Split-four b [] lo = inl (ground arith)
Split-four b (c ∷ []) lo = inl (ground arith)
Split-four b (c ∷ d ∷ []) lo = inl (ground arith)
Split-four b (c ∷ d ∷ e ∷ rest) lo = elim (Bool-cases (rune_tail b (c ∷ d ∷ e ∷ rest)).0) [
  | inl fits ↦ inr (c ∷ d ∷ e ∷ [], rest, refl, ground arith, ground arith)
  | inr other ↦ inl other
]

split : (b : ℕ) (bs : List ℕ) → Split b bs
unfolding rune_tail
split b bs = elim (Bool-cases (ltb b 0x80)) [
  | inl ascii ↦ inr ([], bs, refl, ground arith, ground arith)
  | inr more ↦ elim (Bool-cases (ltb b 0xE0)) [
    | inl small ↦ Split-two b bs (ground arith) (ground arith)
    | inr large ↦ elim (Bool-cases (ltb b 0xF0)) [
      | inl three ↦ Split-three b bs (ground arith) (ground arith)
      | inr four ↦ Split-four b bs (ground arith)
    ]
  ]
]

copied :
    (repl r rest : List ℕ)
    → valid_utf8_from repl (length r) false (r ++ rest) ≡ r ++ valid_utf8_from repl 0 false rest
unfolding valid_utf8_from
copied repl [] rest = refl
copied repl (c ∷ r) rest = ap (◌∷◌ c) (copied repl r rest)

shorter : (k : ℕ) (r rest : List ℕ) → length (r ++ rest) ≤ k → length rest ≤ k
shorter k r rest h = omega (arith, length-append r rest)

valid_utf8_from-IsUtf8 :
    (repl : List ℕ) (k : ℕ) (bad : Bool) (bs : List ℕ)
    → IsUtf8 repl
    → length bs ≤ k
    → IsUtf8 (valid_utf8_from repl 0 bad bs)
unfolding valid_utf8_from
valid_utf8_from-IsUtf8 repl zero bad [] u h = end
valid_utf8_from-IsUtf8 repl zero bad (b ∷ bs) u h = absurd (omega arith)
valid_utf8_from-IsUtf8 repl (suc k) bad [] u h = end
valid_utf8_from-IsUtf8 repl (suc k) bad (b ∷ bs) u h =
    let drops = λ (w : Bool). valid_utf8_from-IsUtf8 repl k w bs u (omega arith) in
    let goes = λ (rest : List ℕ) (short : length rest ≤ k).
      valid_utf8_from-IsUtf8 repl k false rest u short in
    elim (split b bs) [
      | inl refused ↦ refused_case refused (drops true)
      | inr (r, rest, parts, tail, well) ↦
          rw (tail, parts, copied repl r rest)
            (rune (b ∷ r) _ well (goes rest (shorter k r rest (rw (← parts) (omega arith)))))
    ]
  where
    refused_case :
        (rune_tail b bs).0 ≡ false
        → IsUtf8 (valid_utf8_from repl 0 true bs)
        → IsUtf8 (valid_utf8_from repl 0 bad (b ∷ bs))
    refused_case refused later = elim (Bool-cases bad) [
      | inl again ↦ rw (refused, again) later
      | inr first ↦ rw (refused, first) (IsUtf8-append u later)
    ]

to_valid_utf8-IsUtf8 : (repl bs : List ℕ) → IsUtf8 repl → IsUtf8 (to_valid_utf8 repl bs)
unfolding to_valid_utf8
to_valid_utf8-IsUtf8 repl bs u = valid_utf8_from-IsUtf8 repl (length bs) false bs u (omega arith)

replacement-IsUtf8 : IsUtf8 replacement
replacement-IsUtf8 = rune replacement [] (ground arith) end

cut-IsUtf8 :
    (n : ℕ) (clean : List ℕ)
    → IsUtf8 clean
    → IsUtf8 (if ltb n (length clean) then to_valid_utf8 [] (take n clean) else clean)
cut-IsUtf8 n clean u = elim (Bool-cases (ltb n (length clean))) [
  | inl long ↦ rw long (to_valid_utf8-IsUtf8 [] (take n clean) end)
  | inr fits ↦ rw fits u
]

-- What is stored of any User-Agent is at most 512 bytes long, holds no NUL byte, and is a
-- sequence of well-formed UTF-8 runes.
pub sanitize_user_agent_lem :
    (ua : List ℕ)
    → (length (sanitize_user_agent ua) ≤ max_user_agent_len)
      × (any (λ b. b == 0) (sanitize_user_agent ua) ≡ false)
      × IsUtf8 (sanitize_user_agent ua)
unfolding sanitize_user_agent
sanitize_user_agent_lem ua = (
  capped max_user_agent_len clean,
  nul_free max_user_agent_len clean (
      valid_utf8_from-nul replacement 0 false (filter (λ b. not (b == 0)) ua) refl
        (has_nul-filter ua)),
  cut-IsUtf8 max_user_agent_len clean
      (to_valid_utf8-IsUtf8 replacement (filter (λ b. not (b == 0)) ua) replacement-IsUtf8),
)
  where
    clean : List ℕ
    clean = to_valid_utf8 replacement (filter (λ b. not (b == 0)) ua)
