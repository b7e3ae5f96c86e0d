-- ===== src/Protocol/External/Reference.antt =====
-- Concrete functions that behave as the interfaces of `External` say.
use zeroio.Common.{
  ℕ, ◌-◌, ◌<◌, ◌≡◌, refl, String, Bool, Option, none, some, List, ◌++◌, ok, err, panic, ltb, le→ltb,
  lt→ltb, subst, if◌then◌else◌, length, take, drop, length-append, take-append, drop-append, arith,
}
use zeroio.Common.Words.{from_be}
use zeroio.Protocol.External.{IResult, Fails, ErrorKind, tag, length_value, ReadsBe, Nom, Buffers}

pub data Fault : Type 0 where
  eof refused : Fault
  made : ErrorKind → Fault

abbrev read_be : ℕ → List ℕ → IResult Fault ℕ
read_be w input =
    if ltb (length input) w then err eof else ok (drop w input, from_be (take w input))

abbrev read_bytes : ℕ → List ℕ → IResult Fault (List ℕ)
read_bytes n input = if ltb (length input) n then err eof else ok (drop n input, take n input)

pub be_reads : (w : ℕ) → ReadsBe w (read_be w)
be_reads w = record { reads = reads; short = short }
  where
    reads : (bs rest : List ℕ) → length bs ≡ w → read_be w (bs ++ rest) ≡ ok (rest, from_be bs)
    reads bs rest e =
        subst (λ n. read_be n (bs ++ rest) ≡ ok (rest, from_be bs)) e
          (rw (
            le→ltb (length (bs ++ rest)) (length bs) (omega (arith, length-append bs rest)),
            take-append,
            drop-append,
          ))

    short : (input : List ℕ) → length input < w → Fails (read_be w input)
    short input h = (eof, rw (lt→ltb (length input) w h))

pub take_reads : (bs rest : List ℕ) → read_bytes (length bs) (bs ++ rest) ≡ ok (rest, bs)
take_reads bs rest = rw (
  le→ltb (length (bs ++ rest)) (length bs) (omega (arith, length-append bs rest)),
  take-append,
  drop-append,
)

pub take_refuses : (n : ℕ) (input : List ℕ) → length input < n → Fails (read_bytes n input)
take_refuses n input h = (eof, rw (lt→ltb (length input) n h))

abbrev checked : (ℕ → Bool) → IResult Fault ℕ → IResult Fault ℕ
checked test (ok (rest, v)) = if test v then ok (rest, v) else err refused
checked test (err e) = err e
checked test panic = panic

abbrev display : Fault → String
display eof = "Eof"
display refused = "Verify"
display (made tag) = "Tag"
display (made length_value) = "LengthValue"

abbrev pub nom : Nom Fault
nom = record {
  be_u8 = read_be 1;
  be_u32 = read_be 4;
  be_u64 = read_be 8;
  take_bytes = read_bytes;
  verify = λ p test input. checked test (p input);
  error = λ input kind. made kind;
  display = display;
  be_u8_lem = be_reads 1;
  be_u32_lem = be_reads 4;
  be_u64_lem = be_reads 8;
  take_ok = take_reads;
  take_short = take_refuses;
  verify_ok = λ p test input rest v e t. rw (e, t);
  verify_refuses = λ p test input rest v e t. (refused, rw (e, t));
  verify_fails = λ p test input f. (f.0, rw f.1);
}

abbrev split_at : ℕ → List ℕ → Option (List ℕ × List ℕ)
split_at n buffer = if ltb (length buffer) n then none else some (take n buffer, drop n buffer)

abbrev slice_of : ℕ → ℕ → List ℕ → Option (List ℕ)
slice_of start end buffer =
    if ltb end start
    then none
    else if ltb (length buffer) end
    then none
    else some (take (end - start) (drop start buffer))

pub slice_past :
    (start end : ℕ) (buffer : List ℕ) → length buffer < end → slice_of start end buffer ≡ none
slice_past start end buffer h = ground arith

abbrev pub buffers : Buffers
buffers = record {
  extend_from_slice = λ buffer more. buffer ++ more;
  split_to = split_at;
  slice = slice_of;
  extend_lem = λ buffer more. refl;
  split_to_ok = λ n buffer h. rw (le→ltb (length buffer) n h);
  split_to_panics = λ n buffer h. rw (lt→ltb (length buffer) n h);
  slice_ok = λ start end buffer h k. rw (le→ltb end start h, le→ltb (length buffer) end k);
  slice_past_end = slice_past;
  slice_reversed = λ start end buffer h. rw (lt→ltb end start h);
}
