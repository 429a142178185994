-- ===== src/Media/Tests.antt =====
-- Runs of the range parser and of the server, and their theorems at a small file.
use podarium.Prelude.{
  ◌+◌, ◌-◌, ◌≤◌, ◌<◌, ◌≡◌, refl, arith, Option, some, none, [], ◌∷◌, ◌++◌, ltb, leb, ◌==◌, ◌&&◌,
  if◌then◌else◌, length, take, drop, All, min,
}
use podarium.Media.{
  Text, whole, part, not_satisfiable, parse_range, Response, serve_local, int_from, lstrip, rstrip,
  digits, after, match_range, range_of, clamp_range, read_chunks, iter_file, chunk_size,
}
use podarium.Media.Bounds.{
  IsWithin, header_of, parse_range-IsWithin, parse_range_from_to, parse_range_suffix,
}
use podarium.Media.Body.{joined, serve_local-part}

program : Unit {0}
unfolding parse_range int_from lstrip rstrip digits after match_range range_of clamp_range
    read_chunks iter_file serve_local
program = tt

-- `bytes=2-13`
abbrev from_to : Text
from_to = header_of (b'2' ∷ []) (b'1' ∷ b'3' ∷ [])

-- ` bytes=-3 `
abbrev last_three : Text
last_three = b' ' ∷ header_of [] (b'3' ∷ []) ++ b' ' ∷ []

abbrev content : Text
content = 10 ∷ 11 ∷ 12 ∷ 13 ∷ 14 ∷ []

-- A response with the whole file.
abbrev whole_file : Option Text → Text → Response
whole_file header t = record {
  status = 200;
  content_range = none;
  content_length = length t;
  body = t ∷ [];
}

parsed : parse_range (some from_to) 5 ≡ part 2 4
unfolding program
parsed = refl

parsed_suffix : parse_range (some last_three) 5 ≡ part 2 4
unfolding program
parsed_suffix = refl

-- A start behind the file is not refused but ignored.
behind : parse_range (some (header_of (b'9' ∷ []) [])) 5 ≡ whole
unfolding program
behind = refl

parse_range-IsWithin_example : IsWithin 5 (parse_range (some from_to) 5)
parse_range-IsWithin_example = parse_range-IsWithin (some from_to) 5

parse_range_from_to_example : parse_range (some from_to) 5 ≡ (
    if ltb (int_from 0 (b'2' ∷ [])) 5
      && leb (int_from 0 (b'2' ∷ [])) (int_from 0 (b'1' ∷ b'3' ∷ []))
    then part (int_from 0 (b'2' ∷ [])) (min (int_from 0 (b'1' ∷ b'3' ∷ [])) (5 - 1))
    else whole)
parse_range_from_to_example =
    parse_range_from_to (b'2' ∷ []) (b'1' ∷ b'3' ∷ []) 5 (refl, tt) (refl, (refl, tt))
      (λ e. absurd (ground (arith, e))) (λ e. absurd (ground (arith, e)))

parse_range_suffix_example : parse_range (some (header_of [] (b'3' ∷ []))) 5 ≡ (
    if int_from 0 (b'3' ∷ []) == 0
    then not_satisfiable
    else part (5 - int_from 0 (b'3' ∷ [])) (5 - 1))
parse_range_suffix_example =
    parse_range_suffix (b'3' ∷ []) 5 (refl, tt) (λ e. absurd (ground (arith, e))) (omega arith)

serve_local-part_example :
    let r = serve_local whole_file (some from_to) content in
    (r.status ≡ 206)
    × (r.content_range ≡ some (2, 4, length content))
    × (joined r.body ≡ take (4 - 2 + 1) (drop 2 content))
    × (length (joined r.body) ≡ r.content_length)
    × All (λ c. (0 < length c) × (length c ≤ chunk_size)) r.body
serve_local-part_example = serve_local-part whole_file (some from_to) content 2 4 parsed
