-- ===== src/Control/System.antt =====
-- What src/core/main.cc uses of the operating system and the C library: the files under the working
-- directory, and the numbers in them.
use acnet.Prelude.{
  ℕ, ◌≤◌, ◌<◌, ◌^◌, ◌≡◌, ◌≢◌, ◌++◌, if◌then◌else◌, Bool, Option, none, some, [], length, Bytes,
  bytes_eq,
}
use acnet.Control.RoundTrip.{IsPlain}

-- What `stat` tells of a path.
pub data Kind : Type 0 where
  directory regular_file other_file : Kind

-- A truth value tells that the call has succeeded. `create` is `fopen(path, "w")`, `write` is `fprintf`
-- to a file that was so opened, and `fclose`; `content` is what can be read behind `fopen(path, "r")`.
-- `decimal` is the format "%d", and `strtol` is at base 10.
pub record System : Type 1 where
  pub State : Type 0
  pub stat : State → Bytes → Option Kind
  pub mkdir : State → Bytes → State × Bool
  pub unlink : State → Bytes → State × Bool
  pub create : State → Bytes → Option State
  pub write : State → Bytes → Bytes → State
  pub content : State → Bytes → Option Bytes
  pub decimal : ℕ → Bytes
  pub strtol : Bytes → ℕ

-- The effect of each call on the files' contents, where the disk takes what is written; and that the
-- decimal form of a number of 31 bits is short, on one line, and read back as the number.
pub record IsLawful (S : System) : Type 0 where
  pub content-mkdir : (s : S.State) (p q : Bytes) → S.content (S.mkdir s p).0 q ≡ S.content s q
  pub content-unlink :
      (s : S.State) (p q : Bytes)
      → S.content (S.unlink s p).0 q ≡ (
          if (S.unlink s p).1
          then (if bytes_eq q p then none else S.content s q)
          else S.content s q)
  pub content-create :
      (s t : S.State) (p q : Bytes)
      → S.create s p ≡ some t
      → S.content t q ≡ (if bytes_eq q p then some [] else S.content s q)
  pub content-write :
      (s : S.State) (p text more q : Bytes)
      → S.content s p ≡ some text
      → S.content (S.write s p more) q
        ≡ (if bytes_eq q p then some (text ++ more) else S.content s q)
  pub strtol-decimal : (n : ℕ) → n < 2 ^ 31 → S.strtol (S.decimal n) ≡ n
  pub decimal-IsPlain : (n : ℕ) → n < 2 ^ 31 → IsPlain (S.decimal n)
  pub length-decimal : (n : ℕ) → n < 2 ^ 31 → (length (S.decimal n) ≤ 31) × (S.decimal n ≢ [])
