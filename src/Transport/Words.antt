-- ===== src/Transport/Words.antt =====
-- The methods of `str` that crates/transport/src/stdio.rs uses, as Rust's documentation says them.
use Prim.Native.Char.{Char, code}
use Prim.Native.String.{slice, len}
use text.Mathlib.Text.{starts_with}
use zeroio.Common.{
  ℕ, String, Bool, Option, none, some, List, [], ◌∷◌, leb, ◌&&◌, ◌||◌, if◌then◌else◌,
}

-- `strip_prefix`
abbrev pub strip_prefix : String → String → Option String
strip_prefix s prefix = if starts_with s prefix then some (slice s (len prefix) (len s)) else none

abbrev among : ℕ → ℕ → ℕ → Bool
among a b n = leb a n && leb n b

-- `char::is_whitespace`: the property White_Space of Unicode.
abbrev pub is_whitespace : Char → Bool
is_whitespace c =
    let n = code c in
    among 9 13 n
    || (among 32 32 n
        || (among 133 133 n
            || (among 160 160 n
                || (among 5760 5760 n
                    || (among 8192 8202 n
                        || (among 8232 8233 n
                            || (among 8239 8239 n
                                || (among 8287 8287 n || among 12288 12288 n))))))))

abbrev pub put_word : String → List String → List String
put_word String.[] words = words
put_word (String.◌∷◌ c w) words = String.◌∷◌ c w ∷ words

-- The word that the text begins with, and those after it.
unfoldable pub split_first : String → String × List String
split_first String.[] = ("", [])
split_first (String.◌∷◌ c s) =
    let (w, words) = split_first s in
    if is_whitespace c then ("", put_word w words) else (String.◌∷◌ c w, words)

-- `split_whitespace`
abbrev pub split_whitespace : String → List String
unfolding split_first
split_whitespace s = let (w, words) = split_first s in put_word w words
