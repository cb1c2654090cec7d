-- ===== src/TestClient/Input.antt =====
-- `TestClient::readAndParseInputFile` (client/src/TestClient.cpp) with `std::getline`, `strtok_r`
-- and `caseInSensStringCompare`.
pub mod Lines
pub mod Fields
use remote_dict.Prelude.{
  ℕ, zero, suc, ◌+◌, ◌-◌, Bool, true, false, not, ◌&&◌, ◌||◌, Option, none, some, List, [], ◌∷◌,
  ◌++◌, map, length, leb, ◌==◌, if◌then◌else◌, ◌>>=◌,
}
use remote_dict.Text.{Text, bytes}
use remote_dict.Helper.{trim}
use remote_dict.Client.{Message, MessageType, new_message}

abbrev pub newline : ℕ
newline = 10

abbrev pub comma : ℕ
comma = b','

-- `std::toupper` in the C locale.
unfoldable pub to_upper : ℕ → ℕ
to_upper c = if leb b'a' c && leb c b'z' then c - 32 else c

unfoldable pub case_insens_equal : Text → Text → Bool
unfolding to_upper
case_insens_equal [] [] = true
case_insens_equal (a ∷ s) (b ∷ t) = (a == b || to_upper a == to_upper b) && case_insens_equal s t
case_insens_equal _ _ = false

unfoldable pub case_insens_string_compare : Text → Text → Bool
unfolding case_insens_equal
case_insens_string_compare s t = length s == length t && case_insens_equal s t

-- `line.c_str()` as a C string ends at the first zero byte.
unfoldable pub until_nul : Text → Text
until_nul [] = []
until_nul (c ∷ s) = let rest = until_nul s in if c == 0 then [] else c ∷ rest

-- The calls of `strtok_r` with "," over the text: the tokens that are left, where `token` is what
-- has been read of the current one.
unfoldable pub tokens : Text → Text → List Text
tokens [] [] = []
tokens [] (t ∷ token) = (t ∷ token) ∷ []
tokens (c ∷ s) [] = if c == comma then tokens s [] else tokens s (c ∷ [])
tokens (c ∷ s) (t ∷ token) =
    let next = tokens s [] in
    let more = tokens s ((t ∷ token) ++ (c ∷ [])) in if c == comma then (t ∷ token) ∷ next else more

-- The fields of a line.
unfoldable pub line_fields : Text → List Text
line_fields line = map trim (tokens (until_nul line) [])

unfoldable pub get_message : List Text → Message
get_message (_ ∷ key ∷ _) = record new_message { type = some MessageType.get; key = key }
get_message _ = new_message

unfoldable pub set_message : List Text → Message
set_message (_ ∷ key ∷ value ∷ _) = record { type = some MessageType.set; key = key; value = value }
set_message _ = new_message

-- The chain of tests on the fields; where none holds the message keeps its indeterminate type.
unfoldable pub parse_fields : List Text → Message
parse_fields [] = new_message
parse_fields (verb ∷ args) =
    if case_insens_string_compare verb (bytes "GET") && leb 2 (length (verb ∷ args))
    then get_message (verb ∷ args)
    else if case_insens_string_compare verb (bytes "SET") && leb 3 (length (verb ∷ args))
    then set_message (verb ∷ args)
    else if case_insens_string_compare verb (bytes "STAT")
    then record new_message { type = some MessageType.stat }
    else new_message

unfoldable pub parse_line : Text → Message
parse_line line = parse_fields (line_fields line)

-- An input stream: what is left to read, and its two state bits.
pub record Stream : Type 0 where
  pub rest : Text
  pub eof : Bool
  pub fail : Bool

-- The constructor of `ifstream`; a file that cannot be opened sets `failbit`.
unfoldable pub open_file : Option Text → Stream
open_file none = record { rest = []; eof = false; fail = true }
open_file (some text) = record { rest = text; eof = false; fail = false }

-- The line up to the delimiter, what is behind it, and whether the delimiter was met.
unfoldable pub split_line : Text → Text × Text × Bool
split_line [] = ([], [], false)
split_line (c ∷ s) =
    let (line, rest, met) = split_line s in
    if c == newline then ([], s, true) else (c ∷ line, rest, met)

-- `std::getline`: a stream that is not good leaves the line as it was; reading nothing fails.
unfoldable pub getline : Stream → Text → Stream × Text
unfolding split_line
getline s line =
    if s.eof || s.fail
    then (record s { fail = true }, line)
    else (let (line', rest, met) = split_line s.rest in
        (record { rest = rest; eof = not met; fail = not met && length line' == 0 }, line'))

-- The loop `while(!infile.eof())` on fuel, with its local `line`. `none`: the fuel ran out.
unfoldable pub read_loop : ℕ → Stream → Text → Option (List Message)
read_loop zero s line = none
read_loop (suc fuel) s line =
    let (s', line') = getline s line in
    let next = (do ms ← read_loop fuel s' line'; some (parse_line line' ∷ ms)) in
    if s.eof then some [] else next

unfoldable pub read_and_parse_input_file : ℕ → Option Text → Option (List Message)
unfolding open_file read_loop
read_and_parse_input_file fuel file = read_loop fuel (open_file file) []
