-- ===== src/Examples/Requests.antt =====
-- The theorems of the client at one set of messages.
use mathlib.Core.List.{Perm}
use remote_dict.Prelude.{ℕ, ◌≡◌, refl, true, none, some, List, [], ◌∷◌, ◌++◌, map, arith}
use remote_dict.Text.{Text, bytes}
use remote_dict.Examples.Flows.{get_key}
use remote_dict.Helper.{is_whitespace}
use remote_dict.Client.{MessageType, Message, new_message, Client, new_client, Connect, Exchange}
use remote_dict.TestClient.Input.{
  parse_line, read_and_parse_input_file, newline, case_insens_string_compare,
}
use remote_dict.TestClient.Input.Lines.{lines, read_and_parse-diverges, read_and_parse-trailing}
use remote_dict.TestClient.Input.Fields.{Padded, IsField, join, parse_line-request}
use remote_dict.TestClient.Results.{sort, save_results, all_results, combine_latency, latency_line}
use remote_dict.TestClient.Results.Batches.{all_lines, IsSorted, save_results_lem}

abbrev pub get_message : Message
get_message = record { type = some MessageType.get; key = bytes "key"; value = [] }

abbrev pub first : Text
first = 8 ∷ 0 ∷ 0 ∷ 0 ∷ 0 ∷ 4 ∷ []

abbrev pub rest : List Text
rest = (107 ∷ 101 ∷ 121 ∷ 0 ∷ 0 ∷ 0 ∷ []) ∷ []

abbrev pub connected : Connect
connected = record { socket = some 5; connects = true }

abbrev pub exchange : Exchange
exchange = record { written = some 12; response = some (bytes "ok"); timestamp = 9; duration = 30 }

abbrev file : Text
file = bytes "GET,a" ++ (newline ∷ bytes "STAT")

read_and_parse-trailing_example :
    read_and_parse_input_file 13 (some (file ++ (newline ∷ [])))
    ≡ some (map parse_line (lines file) ++ (new_message ∷ []))
read_and_parse-trailing_example = read_and_parse-trailing 13 file (omega arith)

read_and_parse-diverges_example : read_and_parse_input_file 100 none ≡ none
read_and_parse-diverges_example = read_and_parse-diverges 100

set-IsField : IsField (bytes "set")
unfolding is_whitespace
set-IsField = record {
  nonempty = omega arith;
  plain = ground arith;
  starts = ground arith;
  ends = ground arith;
}

a-IsField : IsField (bytes "a")
unfolding is_whitespace
a-IsField = record {
  nonempty = omega arith;
  plain = ground arith;
  starts = ground arith;
  ends = ground arith;
}

abbrev verb : Padded
verb = record { before = []; field = bytes "set"; blank = tt; is_field = set-IsField }

abbrev operand : Padded
operand = record { before = []; field = bytes "a"; blank = tt; is_field = a-IsField }

parse_line-request_example :
    parse_line (join (bytes "set") (bytes "a" ∷ bytes "a" ∷ []))
    ≡ record { type = some MessageType.set; key = bytes "a"; value = bytes "a" }
unfolding case_insens_string_compare
parse_line-request_example = parse_line-request MessageType.set verb operand operand refl

abbrev three : List ℕ
three = 1 ∷ 2 ∷ 3 ∷ []

abbrev finished_client : Client
finished_client = record (new_client 20 []) {
  results =
      record { payload = get_key; timestamp = 9 }
      ∷ record { payload = get_key; timestamp = 4 }
      ∷ [];
}

save_results_lem_example :
    (save_results (finished_client ∷ [])
      ≡ some (
          all_lines (sort (all_results (finished_client ∷ [])))
          ++ latency_line (combine_latency (finished_client ∷ []) 0)))
    × IsSorted (sort (all_results (finished_client ∷ [])))
    × Perm (sort (all_results (finished_client ∷ []))) (all_results (finished_client ∷ []))
unfolding all_results
save_results_lem_example = save_results_lem (finished_client ∷ []) (λ h. absurd (cc))
