-- ===== src/Session/UserAgent.antt =====
-- `sanitizeUserAgent` of internal/session/session.go, over bytes, with Go's `utf8.DecodeRune`
-- and `strings.ToValidUTF8`.
pub mod Laws
use homepad_api.Base.{
  ℕ, zero, suc, ◌-◌, Bool, true, false, not, ◌&&◌, List, [], ◌∷◌, ◌++◌, ◌==◌, nat_eq, string_eq,
  leb, ltb, if◌then◌else◌, length, filter,
}

abbrev pub between : ℕ → ℕ → ℕ → Bool
between lo hi b = leb lo b && leb b hi

-- `n` continuation bytes at the front.
pub continues : ℕ → List ℕ → Bool
continues zero bs = true
continues (suc n) [] = false
continues (suc n) (b ∷ bs) = between 0x80 0xBF b && continues n bs

-- The first byte in a range, then `n` continuation bytes.
pub continues_in : ℕ → ℕ → ℕ → List ℕ → Bool
unfolding continues
continues_in lo hi n [] = false
continues_in lo hi n (b ∷ bs) = between lo hi b && continues n bs

-- The number of bytes after the first one of the rune that starts with `b`, and whether they
-- follow: the table of `utf8.DecodeRune`.
pub rune_tail : ℕ → List ℕ → Bool × ℕ
unfolding continues_in
rune_tail b bs =
    if ltb b 0x80
    then (true, 0)
    else if between 0xC2 0xDF b
    then (continues_in 0x80 0xBF 0 bs, 1)
    else if b == 0xE0
    then (continues_in 0xA0 0xBF 1 bs, 2)
    else if b == 0xED
    then (continues_in 0x80 0x9F 1 bs, 2)
    else if between 0xE1 0xEF b
    then (continues_in 0x80 0xBF 1 bs, 2)
    else if b == 0xF0
    then (continues_in 0x90 0xBF 2 bs, 3)
    else if b == 0xF4
    then (continues_in 0x80 0x8F 2 bs, 3)
    else if between 0xF1 0xF3 b
    then (continues_in 0x80 0xBF 2 bs, 3)
    else (false, 0)

-- `strings.ToValidUTF8`: a run of invalid bytes becomes one replacement. `left` bytes of the
-- current rune are still to be copied; `bad` says that the byte before was invalid.
pub valid_utf8_from : List ℕ → ℕ → Bool → List ℕ → List ℕ
unfolding rune_tail
valid_utf8_from repl left bad [] = []
valid_utf8_from repl (suc left) bad (b ∷ bs) = b ∷ valid_utf8_from repl left false bs
valid_utf8_from repl zero bad (b ∷ bs) =
    let (fits, more) = rune_tail b bs in
    let kept = b ∷ valid_utf8_from repl more false bs in
    let dropped = valid_utf8_from repl zero true bs in
    if fits then kept else if bad then dropped else repl ++ dropped

pub to_valid_utf8 : List ℕ → List ℕ → List ℕ
unfolding valid_utf8_from
to_valid_utf8 repl bs = valid_utf8_from repl 0 false bs

abbrev pub take : ℕ → List ℕ → List ℕ
take zero xs = []
take (suc n) [] = []
take (suc n) (x ∷ xs) = x ∷ take n xs

abbrev pub max_user_agent_len : ℕ
max_user_agent_len = 512

-- U+FFFD in UTF-8.
abbrev pub replacement : List ℕ
replacement = 0xEF ∷ 0xBF ∷ 0xBD ∷ []

unfoldable pub sanitize_user_agent : List ℕ → List ℕ
unfolding to_valid_utf8
sanitize_user_agent ua =
    let clean = to_valid_utf8 replacement (filter (λ b. not (b == 0)) ua) in
    if ltb max_user_agent_len (length clean)
    then to_valid_utf8 [] (take max_user_agent_len clean)
    else clean
