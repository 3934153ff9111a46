-- ===== src/Models/Float.antt =====
-- Python's floats: an IEEE double is the number that its 64 bits spell. Comparison is read off
-- the bits. Arithmetic, `round`, `float(text)` and the formats are the interpreter's: the record
-- `Arith` passes them in.
pub mod Order
use Prim.Native.Nat.{ℕ, ◌%◌, ◌^◌}
use Prim.Native.String.{String}
use mathlib.Core.Bool.{Bool, false, not, ◌&&◌, ◌||◌}
use mathlib.Core.Option.{Option}
use occj.Prelude.{ltb, leb, nat_eq, if◌then◌else◌}

abbrev pub Float : Type 0
Float = ℕ

abbrev pub is_negative : Float → Bool
is_negative x = leb (2 ^ 63) x

abbrev pub magnitude : Float → ℕ
magnitude x = x % 2 ^ 63

abbrev pub is_nan : Float → Bool
is_nan x = ltb 0x7ff0000000000000 (magnitude x)

-- `a < b`
unfoldable pub lt_float : Float → Float → Bool
lt_float a b =
    not (is_nan a)
    && not (is_nan b)
    && (if is_negative a
        then (if is_negative b
            then ltb (magnitude b) (magnitude a)
            else not (nat_eq (magnitude a) 0 && nat_eq (magnitude b) 0))
        else (if is_negative b then false else ltb (magnitude a) (magnitude b)))

-- `a == b`
unfoldable pub eq_float : Float → Float → Bool
eq_float a b =
    not (is_nan a)
    && not (is_nan b)
    && (nat_eq a b || (nat_eq (magnitude a) 0 && nat_eq (magnitude b) 0))

-- `a <= b`
unfoldable pub le_float : Float → Float → Bool
unfolding lt_float eq_float
le_float a b = lt_float a b || eq_float a b

-- `max(a, b)` and `min(a, b)` keep the first of two that are equal.
unfoldable pub max_float : Float → Float → Float
unfolding lt_float
max_float a b = if lt_float a b then b else a

unfoldable pub min_float : Float → Float → Float
unfolding lt_float
min_float a b = if lt_float b a then b else a

-- What the interpreter computes on doubles.
pub record Arith : Type 0 where
  pub add : Float → Float → Float
  pub sub : Float → Float → Float
  pub mul : Float → Float → Float
  pub div : Float → Float → Float
  pub abs : Float → Float
  -- `round(x, n)`
  pub round : Float → ℕ → Float
  -- `float(n)` for a natural number
  pub of_nat : ℕ → Float
  -- `float(text)`, which may raise
  pub parse : String → Option Float
  -- `f"{x:.2f}"`, `f"{x:.0%}"` and `str(x)`
  pub fixed2 : Float → String
  pub percent0 : Float → String
  pub show_float : Float → String
  pub show_nat : ℕ → String

-- The literals of the source, as `struct.pack('>d', x)` gives them.
abbrev pub f0 : Float
f0 = 0

abbrev pub f0_1 : Float
f0_1 = 0x3fb999999999999a

abbrev pub f0_15 : Float
f0_15 = 0x3fc3333333333333

abbrev pub f0_2 : Float
f0_2 = 0x3fc999999999999a

abbrev pub f0_3 : Float
f0_3 = 0x3fd3333333333333

abbrev pub f0_5 : Float
f0_5 = 0x3fe0000000000000

abbrev pub f0_6 : Float
f0_6 = 0x3fe3333333333333

abbrev pub f0_7 : Float
f0_7 = 0x3fe6666666666666

abbrev pub f0_9 : Float
f0_9 = 0x3feccccccccccccd

abbrev pub f1 : Float
f1 = 0x3ff0000000000000

abbrev pub f1_15 : Float
f1_15 = 0x3ff2666666666666

abbrev pub f1_3 : Float
f1_3 = 0x3ff4cccccccccccd

abbrev pub f1_5 : Float
f1_5 = 0x3ff8000000000000

abbrev pub f10 : Float
f10 = 0x4024000000000000

abbrev pub f24 : Float
f24 = 0x4038000000000000

abbrev pub f25 : Float
f25 = 0x4039000000000000

abbrev pub f75 : Float
f75 = 0x4052c00000000000

abbrev pub f3600 : Float
f3600 = 0x40ac200000000000
