-- ===== src/Prelude/Words.antt =====
-- 64-bit words: `size_t` counts modulo 2 ^ 64, and a cast to `int64_t` compares the patterns as
-- signed numbers.
use Prim.Native.Nat.{ℕ, zero, suc, ◌+◌, ◌-◌, ◌%◌, ◌^◌, ◌<◌}
use mathlib.Core.Path.{◌≡◌, ◌∙◌}
use mathlib.Core.Bool.{Bool, false}
use native.Mathlib.Omega.{arith}
use acnet.Prelude.Tests.{ltb, leb}

abbrev pub word : ℕ
word = 2 ^ 64

abbrev pub increment : ℕ → ℕ
increment a = (a + 1) % word

abbrev pub decrement : ℕ → ℕ
decrement a = (a + word - 1) % word

abbrev pub subtract : ℕ → ℕ → ℕ
subtract a b = (a + word - b) % word

-- The order of `int64_t`: the patterns from 2 ^ 63 on are the negative numbers.
abbrev pub signed_ltb : ℕ → ℕ → Bool
signed_ltb a b = ltb ((a + 2 ^ 63) % word) ((b + 2 ^ 63) % word)

abbrev pub signed_leb : ℕ → ℕ → Bool
signed_leb a b = leb ((a + 2 ^ 63) % word) ((b + 2 ^ 63) % word)

-- Below 2 ^ 63 the signed order is the order of the numbers.
shift_small : (a : ℕ) → a < 2 ^ 63 → (a + 2 ^ 63) % word ≡ a + 2 ^ 63
shift_small a h = omega arith

ltb_shift : (a b k : ℕ) → ltb (a + k) (b + k) ≡ ltb a b
ltb_shift a b k = ground arith

leb_shift : (a b k : ℕ) → leb (a + k) (b + k) ≡ leb a b
leb_shift a b k = ground arith

pub signed_ltb_small : (a b : ℕ) → a < 2 ^ 63 → b < 2 ^ 63 → signed_ltb a b ≡ ltb a b
signed_ltb_small a b h k = rw (shift_small a h, shift_small b k) (ltb_shift a b (2 ^ 63))

pub signed_leb_small : (a b : ℕ) → a < 2 ^ 63 → b < 2 ^ 63 → signed_leb a b ≡ leb a b
signed_leb_small a b h k = rw (shift_small a h, shift_small b k) (leb_shift a b (2 ^ 63))

-- One below 0 is negative.
pub signed_leb_under : (a : ℕ) → a < 2 ^ 63 → signed_leb a (decrement 0) ≡ false
signed_leb_under a h = rw (shift_small a h) (ground arith)

pub decrement-suc : (b : ℕ) → b < 2 ^ 63 → decrement (suc b) ≡ b
decrement-suc b h = omega arith

pub increment_small : (b : ℕ) → b < 2 ^ 63 → increment b ≡ suc b
increment_small b h = omega arith

pub increment-decrement : (b : ℕ) → b < word → increment (decrement b) ≡ b
increment-decrement b h = omega arith

pub signed_leb-decrement : (b : ℕ) → b < 2 ^ 63 → signed_leb b (decrement b) ≡ false
signed_leb-decrement zero h = signed_leb_under 0 h
signed_leb-decrement (suc b) h =
    rw (decrement-suc b (omega arith)) (signed_leb_small (suc b) b h (omega arith) ∙ ground arith)

pub signed_ltb_under : (a : ℕ) → a < 2 ^ 63 → signed_ltb a (decrement 0) ≡ false
signed_ltb_under a h = rw (shift_small a h) (ground arith)
