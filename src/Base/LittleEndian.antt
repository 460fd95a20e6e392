-- ===== src/Base/LittleEndian.antt =====
-- Little-endian bytes of a number of a fixed width: Rust's `to_le_bytes` and `from_le_bytes`.
use Prim.Native.Nat.{ℕ, zero, suc, ◌+◌, ◌*◌, ◌/◌, ◌%◌, ◌^◌, ◌<◌}
use Prim.Native.Char.{code}
use Prim.Native.String.{String}
use mathlib.Core.Bool.{Bool, true, ◌&&◌}
use mathlib.Core.Logic.{inl, inr}
use entros_governance_plugin.Base.Tests.{ltb, ltb→lt, Bool-cases}
use mathlib.Core.Path.{◌≡◌, refl, sym, ap, ◌∙◌, subst}
use mathlib.Core.List.{List, [], ◌∷◌, ◌++◌}
use native.Mathlib.Omega.{arith}
use native.Mathlib.Nat.{pow-suc}
use entros_governance_plugin.Base.Lists.{length, take, drop, take-append_length, drop-append_length}

abbrev pub Bytes : Type 0
Bytes = List ℕ

-- A byte string literal, b"...".
abbrev pub bytes : String → Bytes
bytes String.[] = []
bytes (String.◌∷◌ c s) = code c ∷ bytes s

unfoldable pub to_le_bytes : ℕ → ℕ → Bytes
to_le_bytes zero v = []
to_le_bytes (suc n) v = (v % 256) ∷ to_le_bytes n (v / 256)

unfoldable pub from_le_bytes : Bytes → ℕ
from_le_bytes [] = 0
from_le_bytes (b ∷ bs) = b + 256 * from_le_bytes bs

abbrev pub AllBytes : Bytes → Type 0
AllBytes [] = Unit {0}
AllBytes (b ∷ bs) = (b < 256) × AllBytes bs

-- Which byte strings are bytes can be tested.
abbrev pub all_bytes : Bytes → Bool
all_bytes [] = true
all_bytes (b ∷ bs) = ltb b 256 && all_bytes bs

pub all_bytes-AllBytes : (bs : Bytes) → all_bytes bs ≡ true → AllBytes bs
all_bytes-AllBytes [] h = tt
all_bytes-AllBytes (b ∷ bs) h = elim (Bool-cases (ltb b 256)) [
  | inl small ↦ (ltb→lt b 256 small, all_bytes-AllBytes bs (rw small at h))
  | inr large ↦ absurd (cc (rw large at h))
]

abbrev pub concat : List Bytes → Bytes
concat [] = []
concat (s ∷ ss) = s ++ concat ss

pub AllBytes-append : (xs ys : Bytes) → AllBytes xs → AllBytes ys → AllBytes (xs ++ ys)
AllBytes-append [] ys hx hy = hy
AllBytes-append (x ∷ xs) ys hx hy = (hx.0, AllBytes-append xs ys hx.1 hy)

pub to_le_bytes-AllBytes : (n v : ℕ) → AllBytes (to_le_bytes n v)
unfolding to_le_bytes
to_le_bytes-AllBytes zero v = tt
to_le_bytes-AllBytes (suc n) v = (omega arith, to_le_bytes-AllBytes n (v / 256))

pub length-to_le_bytes : (n v : ℕ) → length (to_le_bytes n v) ≡ n
unfolding to_le_bytes
length-to_le_bytes zero v = refl
length-to_le_bytes (suc n) v = ap suc (length-to_le_bytes n (v / 256))

pub from_le_bytes-to_le_bytes : (n v : ℕ) → v < 256 ^ n → from_le_bytes (to_le_bytes n v) ≡ v
unfolding to_le_bytes from_le_bytes
from_le_bytes-to_le_bytes zero v h = omega arith
from_le_bytes-to_le_bytes (suc n) v h =
    omega (arith, pow-suc 256 n, from_le_bytes-to_le_bytes n (v / 256))

pub from_le_bytes-lt : (bs : Bytes) → AllBytes bs → from_le_bytes bs < 256 ^ length bs
unfolding from_le_bytes
from_le_bytes-lt [] h = omega arith
from_le_bytes-lt (b ∷ bs) h = omega (arith, pow-suc 256 (length bs), from_le_bytes-lt bs h.1)

-- A field of a fixed width is determined by a byte string that starts with it.
pub to_le_bytes-append_injective :
    (n v w : ℕ) (xs ys : Bytes)
    → v < 256 ^ n
    → w < 256 ^ n
    → to_le_bytes n v ++ xs ≡ to_le_bytes n w ++ ys
    → (v ≡ w) × (xs ≡ ys)
to_le_bytes-append_injective n v w xs ys hv hw e =
    let front : (u : ℕ) (rest : Bytes) → take n (to_le_bytes n u ++ rest) ≡ to_le_bytes n u =
      λ u rest.
        subst (λ k. take k (to_le_bytes n u ++ rest) ≡ to_le_bytes n u) (length-to_le_bytes n u)
          (take-append_length (to_le_bytes n u) rest) in
    let back : (u : ℕ) (rest : Bytes) → drop n (to_le_bytes n u ++ rest) ≡ rest = λ u rest.
      subst (λ k. drop k (to_le_bytes n u ++ rest) ≡ rest) (length-to_le_bytes n u)
        (drop-append_length (to_le_bytes n u) rest) in
    (
      sym (from_le_bytes-to_le_bytes n v hv)
          ∙ ap from_le_bytes (sym (front v xs) ∙ ap (take n) e ∙ front w ys)
          ∙ from_le_bytes-to_le_bytes n w hw,
      sym (back v xs) ∙ ap (drop n) e ∙ back w ys,
    )
