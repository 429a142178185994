-- ===== src/Media.antt =====
-- Byte ranges: `parse_range`, `_iter_file` and `_serve_local` of src/podarium/api/media_routes.py.
-- A header is the list of its code points, each below 256, as a header is decoded.
pub mod Bounds
pub mod Body
mod Tests
use podarium.Prelude.{
  ℕ, zero, suc, ◌+◌, ◌-◌, ◌*◌, ◌^◌, min, Bool, true, false, ◌&&◌, ◌||◌, not, Option, none, some,
  List, [], ◌∷◌, ◌++◌, ltb, leb, ◌==◌, if◌then◌else◌, length, take, drop,
}

abbrev pub Text : Type 0
Text = List ℕ

abbrev pub chunk_size : ℕ
chunk_size = 256 * 1024

-- The characters that `strip` takes off.
abbrev pub is_space : ℕ → Bool
is_space c = leb 9 c && leb c 13 || leb 28 c && leb c 32 || c == 133 || c == 160

unfoldable pub lstrip : Text → Text
lstrip [] = []
lstrip (c ∷ s) = if is_space c then lstrip s else c ∷ s

unfoldable pub rstrip : Text → Text
rstrip [] = []
rstrip (c ∷ s) = elim (rstrip s) [ [] ↦ if is_space c then [] else c ∷ [] | d ∷ r ↦ c ∷ d ∷ r ]

-- `\d`
abbrev pub is_digit : ℕ → Bool
is_digit c = leb b'0' c && leb c b'9'

-- `(\d*)`: the digits in front, and what follows.
unfoldable pub digits : Text → Text × Text
digits [] = ([], [])
digits (c ∷ s) = let (ds, r) = digits s in if is_digit c then (c ∷ ds, r) else ([], c ∷ s)

-- The text behind a prefix.
unfoldable pub after : Text → Text → Option Text
after [] s = some s
after (p ∷ ps) [] = none
after (p ∷ ps) (c ∷ s) = if p == c then after ps s else none

-- `int` on digits.
unfoldable pub int_from : ℕ → Text → ℕ
int_from n [] = n
int_from n (c ∷ s) = int_from (n * 10 + (c - b'0')) s

abbrev pub range_prefix : Text
range_prefix = b'b' ∷ b'y' ∷ b't' ∷ b'e' ∷ b's' ∷ b'=' ∷ []

-- The two groups of `^bytes=(\d*)-(\d*)$`.
unfoldable pub match_range : Text → Option (Text × Text)
unfolding digits after
match_range s = elim (after range_prefix s) [
  | none ↦ none
  | some rest ↦
      let (raw_start, tail) = digits rest in
      elim (after (b'-' ∷ []) tail) [
        | none ↦ none
        | some tail' ↦
            let (raw_end, end) = digits tail' in
            elim end [ [] ↦ some (raw_start, raw_end) | c ∷ r ↦ none ]
      ]
]

pub data Range : Type 0 where
  whole : Range
  part : ℕ → ℕ → Range
  not_satisfiable : Range

-- The end of `parse_range`: a range outside the file is ignored.
unfoldable pub clamp_range : ℕ → ℕ → ℕ → Range
clamp_range size start end =
    if leb size start || ltb end start then whole else part start (min end (size - 1))

-- The groups of a match. For an empty file `size - 1` is -1 in the source; there the start is not
-- below the size either way.
unfoldable pub range_of : ℕ → Text × Text → Range
unfolding clamp_range
range_of size ([], []) = whole
range_of size ([], c ∷ s) =
    let length = int_from 0 (c ∷ s) in
    if leb length 0 then not_satisfiable else clamp_range size (size - length) (size - 1)
range_of size (c ∷ s, []) = clamp_range size (int_from 0 (c ∷ s)) (size - 1)
range_of size (c ∷ s, d ∷ r) = clamp_range size (int_from 0 (c ∷ s)) (int_from 0 (d ∷ r))

unfoldable pub parse_range : Option Text → ℕ → Range
unfolding range_of match_range lstrip rstrip
parse_range none size = whole
parse_range (some []) size = whole
parse_range (some (c ∷ s)) size = elim (match_range (lstrip (rstrip (c ∷ s)))) [
  | none ↦ whole
  | some groups ↦ range_of size groups
]

-- `_iter_file` with the handle at `rest`: the chunks that are sent. A regular file gives what is
-- asked for, as far as it goes.
unfoldable pub read_chunks : ℕ → ℕ → Text → List Text
read_chunks zero remaining rest = []
read_chunks (suc fuel) remaining rest =
    let n = min chunk_size remaining in
    let later = read_chunks fuel (remaining - length (take n rest)) (drop n rest) in
    if remaining == 0 then [] else elim (take n rest) [ [] ↦ [] | b ∷ bs ↦ (b ∷ bs) ∷ later ]

-- Each round sends a byte, so as many rounds as bytes are enough.
unfoldable pub iter_file : Text → ℕ → ℕ → List Text
unfolding read_chunks
iter_file content start end =
    let remaining = end - start + 1 in read_chunks (suc remaining) remaining (drop start content)

pub record Response : Type 0 where
  pub status : ℕ
  pub content_range : Option (ℕ × ℕ × ℕ)
  pub content_length : ℕ
  pub body : List Text

-- `file_response` is Starlette's `FileResponse`, from the request's Range header and the file.
module _ (file_response : Option Text → Text → Response) where
  unfoldable pub serve_local : Option Text → Text → Response
  serve_local header content = elim (parse_range header (length content)) [
    | whole ↦ file_response header content
    | not_satisfiable ↦ record { status = 416; content_range = none; content_length = 0; body = [] }
    | part start end ↦ record {
      status = 206;
      content_range = some (start, end, length content);
      content_length = end - start + 1;
      body = iter_file content start end;
    }
  ]
