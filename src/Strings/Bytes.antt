-- ===== src/Strings/Bytes.antt =====
-- The sizes of texts in UTF-8, and the cuts that keep whole code points.
use kkode.Prelude.{ℕ, ◌+◌, ◌≤◌, ◌<◌, [], ◌∷◌, ◌++◌, ◌≡◌, arith, ltb, if◌then◌else◌}
use kkode.Strings.{Text}

-- The number of bytes of a code point, and of a text: Go's `len`.
unfoldable pub utf8_len : ℕ → ℕ
utf8_len c = if ltb c 0x80 then 1 else if ltb c 0x800 then 2 else if ltb c 0x10000 then 3 else 4

unfoldable pub byte_len : Text → ℕ
unfolding utf8_len
byte_len [] = 0
byte_len (c ∷ s) = utf8_len c + byte_len s

pub byte_len-append : (s t : Text) → byte_len (s ++ t) ≡ byte_len s + byte_len t
unfolding byte_len
byte_len-append [] t = omega arith
byte_len-append (c ∷ s) t = omega (arith, byte_len-append s t)

-- `t` is the longest text of whole code points that `s` starts with and that has at most `max`
-- bytes.
pub record IsLongestWithin (max : ℕ) (s t : Text) : Type 0 where
  pub rest : Text
  pub split : s ≡ t ++ rest
  pub fits : byte_len t ≤ max
  pub longest : (c : ℕ) (u : Text) → rest ≡ c ∷ u → max < byte_len (t ++ c ∷ [])
