-- ===== src/Protocol/External.antt =====
-- What crates/protocol calls and does not implement: the parsers of `nom`, the buffers of `bytes`
-- and the serializers of `rmp_serde`, as operations with the behaviour that they document.
pub mod Reference
use zeroio.Common.{
  ℕ, ◌-◌, ◌≤◌, ◌<◌, ◌≡◌, String, Bool, true, false, Option, none, some, List, [], ◌∷◌, ◌++◌, Result,
  ok, err, length, take, drop,
}
use zeroio.Common.Words.{from_be}

-- `nom::IResult<&[u8], A>`: what is left of the input, and the value. `E` is `nom::Err<Error<_>>`.
abbrev pub IResult : Type 0 → Type 0 → Type 0
IResult E A = Result E (List ℕ × A)

abbrev pub Fails : {E A : Type 0} → Result E A → Type 0
Fails {E} r = (e : E) × (r ≡ err e)

-- The kinds of `nom::error::ErrorKind` that the code makes itself.
pub data ErrorKind : Type 0 where
  tag length_value : ErrorKind

-- A big-endian number of a fixed width is read from the front, or the input is too short.
pub record ReadsBe {E : Type 0} (width : ℕ) (p : List ℕ → IResult E ℕ) : Type 0 where
  pub reads : (bs rest : List ℕ) → length bs ≡ width → p (bs ++ rest) ≡ ok (rest, from_be bs)
  pub short : (input : List ℕ) → length input < width → Fails (p input)

pub record Nom (E : Type 0) : Type 0 where
  pub be_u8 : List ℕ → IResult E ℕ
  pub be_u32 : List ℕ → IResult E ℕ
  pub be_u64 : List ℕ → IResult E ℕ
  pub take_bytes : ℕ → List ℕ → IResult E (List ℕ)
  pub verify : (List ℕ → IResult E ℕ) → (ℕ → Bool) → List ℕ → IResult E ℕ
  pub error : List ℕ → ErrorKind → E
  pub display : E → String
  pub be_u8_lem : ReadsBe 1 be_u8
  pub be_u32_lem : ReadsBe 4 be_u32
  pub be_u64_lem : ReadsBe 8 be_u64
  pub take_ok : (bs rest : List ℕ) → take_bytes (length bs) (bs ++ rest) ≡ ok (rest, bs)
  pub take_short : (n : ℕ) (input : List ℕ) → length input < n → Fails (take_bytes n input)
  pub verify_ok :
      (p : List ℕ → IResult E ℕ) (test : ℕ → Bool) (input rest : List ℕ) (v : ℕ)
      → p input ≡ ok (rest, v)
      → test v ≡ true
      → verify p test input ≡ ok (rest, v)
  pub verify_refuses :
      (p : List ℕ → IResult E ℕ) (test : ℕ → Bool) (input rest : List ℕ) (v : ℕ)
      → p input ≡ ok (rest, v)
      → test v ≡ false
      → Fails (verify p test input)
  pub verify_fails :
      (p : List ℕ → IResult E ℕ) (test : ℕ → Bool) (input : List ℕ)
      → Fails (p input)
      → Fails (verify p test input)

-- `BytesMut` and `Bytes` by the bytes that they hold. `none` is a panic.
pub record Buffers : Type 0 where
  pub extend_from_slice : List ℕ → List ℕ → List ℕ
  pub split_to : ℕ → List ℕ → Option (List ℕ × List ℕ)
  pub slice : ℕ → ℕ → List ℕ → Option (List ℕ)
  pub extend_lem : (buffer more : List ℕ) → extend_from_slice buffer more ≡ buffer ++ more
  pub split_to_ok :
      (n : ℕ) (buffer : List ℕ)
      → n ≤ length buffer
      → split_to n buffer ≡ some (take n buffer, drop n buffer)
  pub split_to_panics : (n : ℕ) (buffer : List ℕ) → length buffer < n → split_to n buffer ≡ none
  pub slice_ok :
      (start end : ℕ) (buffer : List ℕ)
      → start ≤ end
      → end ≤ length buffer
      → slice start end buffer ≡ some (take (end - start) (drop start buffer))
  pub slice_past_end :
      (start end : ℕ) (buffer : List ℕ) → length buffer < end → slice start end buffer ≡ none
  pub slice_reversed :
      (start end : ℕ) (buffer : List ℕ) → end < start → slice start end buffer ≡ none

-- A type that `rmp_serde` writes (`to_vec` and `encode::write`) and reads; an error is known by its
-- text.
pub record Serde (T : Type 0) : Type 0 where
  pub to_vec : T → Result String (List ℕ)
  pub from_slice : List ℕ → Result String T

-- A type behind `dyn Any`: the cast into it, and the checked cast back.
pub record Castable (A T : Type 0) : Type 0 where
  pub upcast : T → A
  pub downcast_ref : A → Option T
  pub downcast-upcast : (t : T) → downcast_ref (upcast t) ≡ some t
