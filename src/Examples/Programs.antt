-- ===== src/Examples/Programs.antt =====
-- The theorems of the two programs, of a thread's set-up and of the signals, each at one run.
use mathlib.Core.List.{Perm}
use remote_dict.Prelude.{
  ℕ, ◌≡◌, refl, sym, subst, true, Option, none, some, List, [], ◌∷◌, ◌++◌, map, length, arith, pos,
}
use remote_dict.Text.{Text, bytes}
use remote_dict.Examples.{exact, plain_codec}
use remote_dict.Examples.Workers.{nonblocking, socket_calls}
use remote_dict.Examples.Requests.{get_message, connected, exchange}
use remote_dict.Options.{
  Choice, thread, dest_ip, port, special, parsed, atoi, skip_spaces, signed_value, digits_value,
  int_of,
}
use remote_dict.TcpServer.{TcpServer, uint16_of}
use remote_dict.ServerMain.{
  Settings, no_settings, Happening, signal, connection, waits, server_main,
}
use remote_dict.ServerMain
use remote_dict.ServerMain.Arguments.{Explains, parse_options_lem}
use remote_dict.ServerMain.Life.{server_main-no_workers}
use remote_dict.Client.Sending.{AllRequests}
use remote_dict.Client.{Message, MessageType, Client, build_request}
use remote_dict.TestClient.Input
use remote_dict.TestClient.Input.{
  parse_line, parse_fields, line_fields, tokens, until_nul, case_insens_string_compare,
  case_insens_equal, to_upper,
}
use remote_dict.TestClient.Input.Lines.{lines}
use remote_dict.TestClient.Chunks.{chunks, chunk_loop}
use remote_dict.TestClient.Results.{sort, all_results, combine_latency, latency_line}
use remote_dict.TestClient.Results.Batches.{all_lines, IsSorted}
use remote_dict.TestClient.Running.{TestClient, Session, run_pool}
use remote_dict.TestClient.Running.Whole.{AllClosed, all_outcomes}
use remote_dict.ClientMain.{no_client, client_main}
use remote_dict.ClientMain
use remote_dict.ClientMain.Results.{client_main_lem}
use remote_dict.Helper.{trim, ltrim, rtrim, find_first_not_of, find_last_not_of, is_whitespace}

-- Six words behind the program's name.
abbrev server_choices : List Choice
server_choices =
    thread (bytes "4") ∷ dest_ip (bytes "::") ∷ port (bytes "6000") ∷ thread (bytes "2") ∷ []

abbrev settings : Settings
settings = record {
  host = bytes "::";
  port_number = pos 6000;
  num_thread = pos 2;
  bloom_filter = pos 0;
}

server_choices-parsed : ServerMain.parse_options server_choices no_settings ≡ some (parsed settings)
unfolding ServerMain.parse_options atoi skip_spaces signed_value digits_value int_of
server_choices-parsed = refl

parse_options_lem_example : Explains server_choices no_settings (parsed settings)
parse_options_lem_example =
    parse_options_lem server_choices no_settings (parsed settings) server_choices-parsed

abbrev happenings : List Happening
happenings = connection (some 9) nonblocking true ∷ signal 15 ∷ []

abbrev no_workers : List Choice
no_workers = thread (bytes "65536") ∷ dest_ip (bytes "::") ∷ port (bytes "6000") ∷ []

abbrev idle_settings : Settings
idle_settings = record settings { num_thread = pos 65536 }

no_workers-parsed : ServerMain.parse_options no_workers no_settings ≡ some (parsed idle_settings)
unfolding ServerMain.parse_options atoi skip_spaces signed_value digits_value int_of
no_workers-parsed = refl

server_main-no_workers_example :
    ((s : TcpServer exact) × (server_main exact 7 no_workers socket_calls [] true true
        ≡ some (waits s)))
    × (server_main exact 7 no_workers socket_calls
          (connection (some 9) nonblocking true ∷ [])
          true
          true
        ≡ none)
unfolding uint16_of
server_main-no_workers_example =
    server_main-no_workers exact 7 no_workers idle_settings socket_calls [] true true true 3 9
      nonblocking no_workers-parsed (omega arith) refl refl (refl, refl, refl, ((2, refl), refl))
      ((2, refl), refl)

abbrev client_choices : List Choice
client_choices =
    thread (bytes "1") ∷ dest_ip (bytes "::1") ∷ port (bytes "6000") ∷ special (bytes "in.csv") ∷ []

abbrev test_client : TestClient
test_client = record {
  input_file = bytes "in.csv";
  num_thread = pos 1;
  host = bytes "::1";
  port = pos 6000;
}

client_choices-parsed :
    ClientMain.parse_options client_choices no_client ≡ some (parsed test_client)
unfolding ClientMain.parse_options atoi skip_spaces signed_value digits_value int_of
client_choices-parsed = refl

abbrev one_line : Text
one_line = bytes "GET,key"

one_line-request : map parse_line (lines one_line) ≡ get_message ∷ []
unfolding parse_line parse_fields line_fields tokens until_nul case_insens_string_compare
    case_insens_equal to_upper trim ltrim rtrim find_first_not_of find_last_not_of is_whitespace
    lines Input.get_message
one_line-request = refl

one_line-AllRequests : AllRequests (map parse_line (lines one_line))
unfolding build_request
one_line-AllRequests =
    subst AllRequests (sym one_line-request) ((MessageType.get, _, refl, refl), tt)

abbrev sessions : ℕ → Session
sessions i = record { garbage = 17; calls = (connected, exchange) ∷ [] }

abbrev files : Text → Option Text
files name = some one_line

abbrev divided : List (List Message)
divided = map parse_line (lines one_line) ∷ []

client_main_lem_example :
    (pool : List Client) × (run_pool plain_codec sessions 0 divided ≡ some pool)
    × (client_main 20 plain_codec files sessions 9 client_choices
        ≡ some (
          0,
          some (all_lines (sort (all_results pool)) ++ latency_line (combine_latency pool 0)),
        ))
    × (all_results pool ≡ all_outcomes plain_codec sessions 0 divided)
    × (length (all_results pool) ≡ length (lines one_line))
    × IsSorted (sort (all_results pool))
    × Perm (sort (all_results pool)) (all_results pool)
    × AllClosed pool
unfolding build_request chunks chunk_loop lines
client_main_lem_example =
    client_main_lem 20 plain_codec files sessions 9 client_choices test_client one_line 1 divided
      client_choices-parsed (omega arith) refl (omega arith) refl (omega arith) one_line-AllRequests
      refl (((refl, (5, refl), (12, refl), (bytes "ok", refl)), tt), refl, tt)
