-- ===== src/Bson/Valid.antt =====
-- UTF-8, as `String::from_utf8` checks it.
use polo_db.Prelude.{
  ℕ, ◌-◌, Bool, false, ◌&&◌, Option, none, some, [], ◌∷◌, leb, ltb, ◌==◌, if◌then◌else◌,
}
use polo_db.Prelude.Bytes.{Bytes}

-- How many continuation bytes are due, and the range of the next one.
pub record Utf8State : Type 0 where
  pub due : ℕ
  pub low : ℕ
  pub high : ℕ

abbrev start : Utf8State
start = record { due = 0; low = 128; high = 191 }

abbrev lead : ℕ → Option Utf8State
lead b =
    if ltb b 128
    then some start
    else if leb 194 b && leb b 223
    then some (record { due = 1; low = 128; high = 191 })
    else if b == 224
    then some (record { due = 2; low = 160; high = 191 })
    else if b == 237
    then some (record { due = 2; low = 128; high = 159 })
    else if leb 225 b && leb b 239
    then some (record { due = 2; low = 128; high = 191 })
    else if b == 240
    then some (record { due = 3; low = 144; high = 191 })
    else if leb 241 b && leb b 243
    then some (record { due = 3; low = 128; high = 191 })
    else if b == 244
    then some (record { due = 3; low = 128; high = 143 })
    else none

abbrev next : Utf8State → ℕ → Option Utf8State
next s b =
    if s.due == 0
    then lead b
    else if leb s.low b && leb b s.high
    then some (record { due = s.due - 1; low = 128; high = 191 })
    else none

scan : Utf8State → Bytes → Bool
scan s [] = s.due == 0
scan s (b ∷ bs) = elim (next s b) [ none ↦ false | some t ↦ scan t bs ]

unfoldable pub is_utf8 : Bytes → Bool
unfolding scan
is_utf8 bs = scan start bs
