-- ===== src/Base/Slices.antt =====
-- Byte slices: `s[lo:hi]`, which panics out of range, and big-endian 32-bit words. A slice's
-- capacity is its length.
use Prim.Native.Nat.{ℕ, ◌+◌, ◌-◌, ◌*◌, ◌/◌, ◌%◌, ◌^◌, ◌<◌}
use mathlib.Core.Path.{◌≡◌, refl}
use mathlib.Core.Bool.{◌&&◌}
use mathlib.Core.List.{List, [], ◌∷◌, ◌++◌}
use native.Mathlib.Omega.{arith}
use underground_node_network.Base.Tests.{leb, if◌then◌else◌}
use underground_node_network.Base.Lists.{length, take, drop, length-append}
use underground_node_network.Base.Panics.{Outcome, returns, panics}

abbrev pub Bytes : Type 0
Bytes = List ℕ

module _ {A : Type 0} where
  unfoldable pub slice : List A → ℕ → ℕ → Outcome (List A)
  slice s lo hi =
      if leb lo hi && leb hi (length s) then returns (take (hi - lo) (drop lo s)) else panics

  pub drop-length : (xs ys : List A) → drop (length xs) (xs ++ ys) ≡ ys
  drop-length [] ys = refl
  drop-length (x ∷ xs) ys = drop-length xs ys

  pub take-length : (xs ys : List A) → take (length xs) (xs ++ ys) ≡ xs
  take-length [] ys = refl
  take-length (x ∷ xs) ys = rw (take-length xs ys)

  slice_middle :
      (xs ys zs : List A)
      → slice (xs ++ (ys ++ zs)) (length xs) (length xs + length ys) ≡ returns ys
  unfolding slice
  slice_middle xs ys zs =
      let e : length xs + length ys - length xs ≡ length ys = omega arith in
      rw (e, drop-length xs, take-length ys)
        (ground (arith, length-append xs (ys ++ zs), length-append ys zs))

  -- The part between `xs` and `zs`.
  pub slice-append :
      (xs ys zs : List A) (lo hi : ℕ)
      → lo ≡ length xs
      → hi ≡ length xs + length ys
      → slice (xs ++ (ys ++ zs)) lo hi ≡ returns ys
  slice-append xs ys zs lo hi p q = rw (p, q) (slice_middle xs ys zs)

-- binary.BigEndian.Uint32
unfoldable pub be_u32 : Bytes → Outcome ℕ
be_u32 (a ∷ b ∷ c ∷ d ∷ _) = returns (a * 2 ^ 24 + b * 2 ^ 16 + c * 2 ^ 8 + d)
be_u32 _ = panics

-- The four bytes of a word, as SSH sends it.
unfoldable pub u32_bytes : ℕ → Bytes
u32_bytes n = n / 2 ^ 24 % 256 ∷ n / 2 ^ 16 % 256 ∷ n / 2 ^ 8 % 256 ∷ n % 256 ∷ []

pub be_u32-u32_bytes : (n : ℕ) → n < 2 ^ 32 → be_u32 (u32_bytes n) ≡ returns n
unfolding be_u32 u32_bytes
be_u32-u32_bytes n h = ground arith

pub length-u32_bytes : (n : ℕ) → length (u32_bytes n) ≡ 4
unfolding u32_bytes
length-u32_bytes n = refl
