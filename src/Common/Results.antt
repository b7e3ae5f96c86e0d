-- ===== src/Common/Results.antt =====
-- Rust's `Result<A, E>`, with one more constructor for a call that panics.
use mathlib.Core.Path.{◌≡◌, refl}
use mathlib.Core.Option.{Option, none, some}

pub data Result (E A : Type 0) : Type 0 where
  ok : A → Result E A
  err : E → Result E A
  panic : Result E A

-- The operator `?`: an error or a panic ends the sequence.
infixl 5 ◌>>=◌ ◌>>◌
abbrev pub ◌>>=◌ : {E A B : Type 0} → Result E A → (A → Result E B) → Result E B
panic >>= next = panic
err e >>= next = err e
ok value >>= next = next value

-- For calls whose value is the unit.
abbrev pub ◌>>◌ : {E B : Type 0} → Result E (Unit {0}) → Result E B → Result E B
first >> second = first >>= λ done. second

abbrev pub map_ok : {E A B : Type 0} → (A → B) → Result E A → Result E B
map_ok f (ok a) = ok (f a)
map_ok f (err e) = err e
map_ok f panic = panic

abbrev pub map_err : {E F A : Type 0} → (E → F) → Result E A → Result F A
map_err f (ok a) = ok a
map_err f (err e) = err (f e)
map_err f panic = panic

-- A call that panics where it has no value.
abbrev pub or_panic : {E A : Type 0} → Option A → Result E A
or_panic none = panic
or_panic (some a) = ok a

-- Where a sequence gives a value, its first call gave one too, and the rest went on from that.
pub >>=-eq-ok :
    {E A B : Type 0} (first : Result E A) (next : A → Result E B) {value : B}
    → (first >>= next) ≡ ok value
    → (between : A) × (first ≡ ok between) × (next between ≡ ok value)
>>=-eq-ok panic next e = cc
>>=-eq-ok (err x) next e = cc
>>=-eq-ok (ok between) next e = (between, refl, e)

pub ok-injective : {E A : Type 0} {a b : A} → ◌≡◌ {A = Result E A} (ok a) (ok b) → a ≡ b
ok-injective e = cc

pub err-ne-ok : {E A B : Type 0} {e : E} {a : A} → ◌≡◌ {A = Result E A} (err e) (ok a) → B
err-ne-ok p = cc

pub panic-ne-ok : {E A B : Type 0} {a : A} → ◌≡◌ {A = Result E A} panic (ok a) → B
panic-ne-ok p = cc

pub map_err-eq-ok :
    {E F A : Type 0} (f : E → F) (r : Result E A) (a : A) → map_err f r ≡ ok a → r ≡ ok a
map_err-eq-ok f (ok b) a e = cc
map_err-eq-ok f (err x) a e = cc
map_err-eq-ok f panic a e = cc
