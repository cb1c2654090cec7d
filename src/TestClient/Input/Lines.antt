-- ===== src/TestClient/Input/Lines.antt =====
-- The loop of `TestClient::readAndParseInputFile` (client/src/TestClient.cpp) beside the lines of
-- the file.
use mathlib.Core.List.{map-append}
use remote_dict.Prelude.{
  length-append, ℕ, zero, suc, ◌+◌, ◌<◌, ◌≡◌, ◌≢◌, refl, ap, ◌∙◌, true, false, none, some, List, [],
  ◌∷◌, ◌++◌, map, length, ◌==◌, if◌then◌else◌, arith, Bool-cases, inl, inr,
}
use remote_dict.Text.{Text}
use remote_dict.Client.{new_message}
use remote_dict.TestClient.Input.{
  parse_fields, line_fields, until_nul, newline, Stream, open_file, split_line, getline, read_loop,
  read_and_parse_input_file, parse_line, tokens,
}

-- The lines of a text: the parts between line feeds.
unfoldable pub lines : Text → List Text
lines [] = [] ∷ []
lines (c ∷ s) =
    if c == newline
    then [] ∷ lines s
    else elim (lines s) [ [] ↦ (c ∷ []) ∷ [] | l ∷ ls ↦ (c ∷ l) ∷ ls ]

-- `split_line` takes the first line off.
split_line-lines :
    (s : Text)
    → let (line, rest, met) = split_line s in lines s ≡ line ∷ (if met then lines rest else [])
unfolding lines split_line
split_line-lines [] = refl
split_line-lines (c ∷ s) = ground (arith, split_line-lines s)

length-split_line : (s : Text) → (split_line s).2 ≡ true → length (split_line s).1 < length s
unfolding split_line
length-split_line [] h = cc
length-split_line (c ∷ s) h = ground (arith, length-split_line s)

abbrev Good : Text → Stream
Good text = record { rest = text; eof = false; fail = false }

read_loop-eof :
    (fuel : ℕ) (s : Stream) (line : Text) → s.eof ≡ true → read_loop (suc fuel) s line ≡ some []
unfolding read_loop
read_loop-eof fuel s line e = rw e refl

-- One round on a good stream.
getline-met :
    (text line : Text)
    → (split_line text).2 ≡ true
    → getline (Good text) line ≡ (Good (split_line text).1, (split_line text).0)
unfolding getline
getline-met text line h = rw h refl

getline-eof :
    (text line : Text)
    → (split_line text).2 ≡ false
    → ((getline (Good text) line).0.eof ≡ true)
      × ((getline (Good text) line).1 ≡ (split_line text).0)
unfolding getline
getline-eof text line h = (rw h refl, refl)

read_loop_lem :
    (fuel : ℕ) (text line : Text)
    → length text + 1 < fuel
    → read_loop fuel (Good text) line ≡ some (map parse_line (lines text))
unfolding read_loop
read_loop_lem zero text line h = absurd (omega arith)
read_loop_lem (suc zero) text line h = absurd (omega arith)
read_loop_lem (suc (suc fuel)) text line h = elim (Bool-cases (split_line text).2) [
  | inl met ↦
      let shorter = length-split_line text met in
      ground (
        arith,
        getline-met text line met,
        read_loop_lem (suc fuel) (split_line text).1 (split_line text).0 (omega arith),
        split_line-lines text,
      )
  | inr end ↦ ground (
    arith,
    getline-eof text line end,
    read_loop-eof fuel (getline (Good text) line).0 (getline (Good text) line).1
        (getline-eof text line end).0,
    split_line-lines text,
  )
]

-- With more fuel than the text has bytes and one, the file is read to the requests of its lines,
-- each of them once and in order.
pub read_and_parse-lines :
    (fuel : ℕ) (text : Text)
    → length text + 1 < fuel
    → read_and_parse_input_file fuel (some text) ≡ some (map parse_line (lines text))
unfolding read_and_parse_input_file
read_and_parse-lines fuel text h = read_loop_lem fuel text [] h

getline-fail :
    (s : Stream) (line : Text)
    → s.fail ≡ true
    → ((getline s line).0.eof ≡ s.eof) × ((getline s line).0.fail ≡ true)
unfolding getline
getline-fail s line f = ground arith

read_loop-fail :
    (fuel : ℕ) (s : Stream) (line : Text)
    → s.eof ≡ false
    → s.fail ≡ true
    → read_loop fuel s line ≡ none
unfolding read_loop
read_loop-fail zero s line e f = refl
read_loop-fail (suc fuel) s line e f = ground (
  arith,
  getline-fail s line f,
  read_loop-fail fuel (getline s line).0 (getline s line).1 ((getline-fail s line f).0 ∙ e)
      (getline-fail s line f).1,
)

-- On a file that cannot be opened no fuel is enough: the loop never ends.
pub read_and_parse-diverges : (fuel : ℕ) → read_and_parse_input_file fuel none ≡ none
unfolding read_and_parse_input_file
read_and_parse-diverges fuel = read_loop-fail fuel (open_file none) [] refl refl

pub lines-ne_nil : (s : Text) → lines s ≢ []
unfolding lines
lines-ne_nil [] h = cc
lines-ne_nil (c ∷ s) h = ground arith

lines-snoc : (text : Text) → lines (text ++ (newline ∷ [])) ≡ lines text ++ ([] ∷ [])
unfolding lines
lines-snoc [] = refl
lines-snoc (c ∷ s) = ground (arith, lines-snoc s, lines-ne_nil s)

-- With more fuel than the text has bytes and two, a file of the text and a line feed at its end is
-- read to the requests of the lines of the text and one message more, of no type.
pub read_and_parse-trailing :
    (fuel : ℕ) (text : Text)
    → length text + 2 < fuel
    → read_and_parse_input_file fuel (some (text ++ (newline ∷ [])))
      ≡ some (map parse_line (lines text) ++ (new_message ∷ []))
unfolding parse_line parse_fields line_fields tokens until_nul
read_and_parse-trailing fuel text h =
    read_and_parse-lines fuel (text ++ (newline ∷ []))
      (omega (arith, length-append text (newline ∷ [])))
    ∙ ap (λ l. some (map parse_line l)) (lines-snoc text)
    ∙ ap some (map-append parse_line (lines text) ([] ∷ []))
