-- ===== src/Common/Words.antt =====
-- Machine words and their big-endian bytes: `to_be_bytes`, `from_be_bytes` and the `as` casts.
use Prim.Native.Nat.{ℕ, ◌+◌, ◌*◌, ◌/◌, ◌%◌, ◌^◌, ◌<◌}
use mathlib.Core.Path.{◌≡◌, ap₂, ◌∙◌, subst, sym}
use mathlib.Core.List.{List, [], ◌∷◌, ◌++◌}
use zeroio.Common.Lists.{length, All, cut, All-append_left, All-append_right}
use native.Mathlib.Omega.{arith}

abbrev pub IsByte : ℕ → Type 0
IsByte b = b < 256

abbrev pub IsU32 : ℕ → Type 0
IsU32 n = n < 2 ^ 32

abbrev pub IsU64 : ℕ → Type 0
IsU64 n = n < 2 ^ 64

-- `n as u32` and `n as u64` keep the low bits.
abbrev pub as_u32 : ℕ → ℕ
as_u32 n = n % 2 ^ 32

abbrev pub as_u64 : ℕ → ℕ
as_u64 n = n % 2 ^ 64

-- The four bytes of a u32 and the eight bytes of a u64, most significant first.
abbrev pub to_be_u32 : ℕ → List ℕ
to_be_u32 n = n / 2 ^ 24 % 256 ∷ n / 2 ^ 16 % 256 ∷ n / 2 ^ 8 % 256 ∷ n % 256 ∷ []

abbrev pub to_be_u64 : ℕ → List ℕ
to_be_u64 n = to_be_u32 (n / 2 ^ 32) ++ to_be_u32 (n % 2 ^ 32)

abbrev from_be_acc : ℕ → List ℕ → ℕ
from_be_acc acc [] = acc
from_be_acc acc (b ∷ bs) = from_be_acc (acc * 256 + b) bs

-- The number that a run of bytes stands for, most significant byte first.
abbrev pub from_be : List ℕ → ℕ
from_be = from_be_acc 0

pub from_be-to_be_u32 : (n : ℕ) → IsU32 n → from_be (to_be_u32 n) ≡ n
from_be-to_be_u32 n h = omega arith

pub from_be-to_be_u64 : (n : ℕ) → IsU64 n → from_be (to_be_u64 n) ≡ n
from_be-to_be_u64 n h = omega arith

four_bytes :
    (a b c d : ℕ)
    → IsByte a
    → IsByte b
    → IsByte c
    → IsByte d
    → to_be_u32 (from_be (a ∷ b ∷ c ∷ d ∷ [])) ≡ a ∷ b ∷ c ∷ d ∷ []
four_bytes a b c d ha hb hc hd = ground arith

pub to_be_u32-from_be : (bs : List ℕ) → length bs ≡ 4 → All IsByte bs → to_be_u32 (from_be bs) ≡ bs
to_be_u32-from_be (a ∷ b ∷ c ∷ d ∷ []) e (ha, (hb, (hc, (hd, u)))) = four_bytes a b c d ha hb hc hd
to_be_u32-from_be [] e h = absurd (omega arith)
to_be_u32-from_be (a ∷ []) e h = absurd (omega arith)
to_be_u32-from_be (a ∷ b ∷ []) e h = absurd (omega arith)
to_be_u32-from_be (a ∷ b ∷ c ∷ []) e h = absurd (omega arith)
to_be_u32-from_be (a ∷ b ∷ c ∷ d ∷ x ∷ xs) e h = absurd (omega arith)

pub from_be-lt-IsU32 : (bs : List ℕ) → length bs ≡ 4 → All IsByte bs → IsU32 (from_be bs)
from_be-lt-IsU32 (a ∷ b ∷ c ∷ d ∷ []) e h = omega arith
from_be-lt-IsU32 [] e h = absurd (omega arith)
from_be-lt-IsU32 (a ∷ []) e h = absurd (omega arith)
from_be-lt-IsU32 (a ∷ b ∷ []) e h = absurd (omega arith)
from_be-lt-IsU32 (a ∷ b ∷ c ∷ []) e h = absurd (omega arith)
from_be-lt-IsU32 (a ∷ b ∷ c ∷ d ∷ x ∷ xs) e h = absurd (omega arith)

-- Four more bytes shift what was read by 32 bits.
from_be-append :
    (hi lo : List ℕ)
    → length hi ≡ 4
    → length lo ≡ 4
    → from_be (hi ++ lo) ≡ from_be hi * 2 ^ 32 + from_be lo
from_be-append (a ∷ b ∷ c ∷ d ∷ []) (e ∷ f ∷ g ∷ h ∷ []) p q = omega arith
from_be-append hi lo p q = absurd (omega arith)

IsU64-halves :
    (hi lo : List ℕ)
    → length hi ≡ 4
    → length lo ≡ 4
    → All IsByte hi
    → All IsByte lo
    → IsU64 (from_be (hi ++ lo)) × (to_be_u64 (from_be (hi ++ lo)) ≡ hi ++ lo)
IsU64-halves hi lo p q hh hl =
    let sum : from_be (hi ++ lo) ≡ from_be hi * 2 ^ 32 + from_be lo = from_be-append hi lo p q in
    let high : from_be (hi ++ lo) / 2 ^ 32 ≡ from_be hi = omega (arith, from_be-lt-IsU32 lo q hl) in
    let low : from_be (hi ++ lo) % 2 ^ 32 ≡ from_be lo = omega (arith, from_be-lt-IsU32 lo q hl) in
    (
      omega (arith, from_be-lt-IsU32 hi p hh, from_be-lt-IsU32 lo q hl),
      ap₂ (λ a b. to_be_u32 a ++ to_be_u32 b) high low
          ∙ ap₂ (λ a b. a ++ b) (to_be_u32-from_be hi p hh) (to_be_u32-from_be lo q hl),
    )

pub IsU64-bytes :
    (bs : List ℕ)
    → length bs ≡ 8
    → All IsByte bs
    → IsU64 (from_be bs) × (to_be_u64 (from_be bs) ≡ bs)
IsU64-bytes bs e h =
    let (hi, lo, split, p, q) = cut 4 bs (omega arith) in
    let h' : All IsByte (hi ++ lo) = subst (All IsByte) split h in
    subst (λ xs. IsU64 (from_be xs) × (to_be_u64 (from_be xs) ≡ xs)) (sym split)
      (IsU64-halves hi lo p (omega arith) (All-append_left IsByte hi lo h')
        (All-append_right IsByte hi lo h'))
