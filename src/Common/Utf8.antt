-- ===== src/Common/Utf8.antt =====
-- `std::str::from_utf8`: whether bytes are well-formed UTF-8, as an automaton over the bytes. A
-- Rust `String` is the list of its bytes.
use Prim.Native.Nat.{ℕ}
use Prim.Native.Char.{code}
use Prim.Native.String.{String}
use mathlib.Core.Bool.{Bool, true, false, ◌&&◌}
use mathlib.Core.Option.{Option, none, some}
use mathlib.Core.List.{List, [], ◌∷◌}
use fastproto.Common.Tests.{leb, ltb, ◌==◌, if◌then◌else◌}

abbrev pub Text : Type 0
Text = List ℕ

-- The bytes of an ASCII literal.
abbrev pub codes : String → Text
codes String.[] = []
codes (String.◌∷◌ c s) = code c ∷ codes s

-- What the next byte may be: the start of a character, the last, the last two or the last three
-- bytes of one, or a second byte in the narrower range that the first byte asks for.
pub data Utf8State : Type 0 where
  start one two three after_e0 after_ed after_f0 after_f4 : Utf8State

abbrev pub between : ℕ → ℕ → ℕ → Bool
between lo b hi = leb lo b && leb b hi

abbrev pub expect : ℕ → ℕ → ℕ → Utf8State → Option Utf8State
expect lo b hi next = if between lo b hi then some next else none

unfoldable pub utf8_step : Utf8State → ℕ → Option Utf8State
utf8_step start b =
    if ltb b 0x80
    then some start
    else if between 0xc2 b 0xdf
    then some one
    else if b == 0xe0
    then some after_e0
    else if b == 0xed
    then some after_ed
    else if between 0xe1 b 0xef
    then some two
    else if b == 0xf0
    then some after_f0
    else if between 0xf1 b 0xf3
    then some three
    else if b == 0xf4
    then some after_f4
    else none
utf8_step one b = expect 0x80 b 0xbf start
utf8_step two b = expect 0x80 b 0xbf one
utf8_step three b = expect 0x80 b 0xbf two
utf8_step after_e0 b = expect 0xa0 b 0xbf one
utf8_step after_ed b = expect 0x80 b 0x9f one
utf8_step after_f0 b = expect 0x90 b 0xbf two
utf8_step after_f4 b = expect 0x80 b 0x8f two

abbrev at_start : Utf8State → Bool
at_start start = true
at_start _ = false

utf8_from : Utf8State → Text → Bool
utf8_from s [] = at_start s
utf8_from s (b ∷ bs) = elim (utf8_step s b) [ none ↦ false | some s' ↦ utf8_from s' bs ]

unfoldable pub is_utf8 : Text → Bool
unfolding utf8_from utf8_step
is_utf8 = utf8_from start
