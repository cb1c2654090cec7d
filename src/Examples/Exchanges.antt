-- ===== src/Examples/Exchanges.antt =====
-- A whole run of the client program with two threads against a new server.
use remote_dict.Prelude.{ℕ, ◌≡◌, refl, some, List, [], ◌∷◌, ◌++◌, map, arith, pos}
use remote_dict.Text.{Text, bytes, text_eq}
use remote_dict.Dictionary
use remote_dict.Stats
use remote_dict.TcpFlow.Requests.{World}
use remote_dict.TcpFlow.Write.{accepts, refused}
use remote_dict.TcpFlow.Responses.{capacity}
use remote_dict.Options.{
  Choice, thread, dest_ip, port, special, parsed, atoi, skip_spaces, signed_value, digits_value,
  int_of,
}
use remote_dict.Client.{
  MessageType, Client, Connect, Exchange, build_request, request_type, frame, size_bytes,
}
use remote_dict.TestClient.Input
use remote_dict.TestClient.Input.{
  parse_line, parse_fields, line_fields, tokens, until_nul, case_insens_string_compare,
  case_insens_equal, to_upper,
}
use remote_dict.TestClient.Input.Lines.{lines}
use remote_dict.TestClient.Chunks.{chunks, chunk_loop}
use remote_dict.TestClient.Results.{
  combine_latency, latency_line, result_line, to_string, digits, get_req_type, text_field,
  value_field, stats_fields,
}
use remote_dict.TestClient.Results.Batches.{all_lines}
use remote_dict.TestClient.Running.{TestClient, run_pool}
use remote_dict.TestClient.Running.Whole.{AllClosed}
use remote_dict.ClientMain.{no_client, parse_options, client_main}
use remote_dict.Helper.{trim, ltrim, rtrim, find_first_not_of, find_last_not_of, is_whitespace}
use remote_dict.System.{Turn, own, split, serve}
use remote_dict.TcpFlow.Ideal.{reply, reply_get, Represents, nothing, new-Represents}
use remote_dict.System.Answers.{AllCarried, answers, final, reply_to, result_of}
use remote_dict.System.Merge.{shares, entries}
use remote_dict.System.Program.{messages, sessions_of, program_answers}
use remote_dict.Examples.{
  exact, exact-NoFalseNegatives, roomy, plain_codec, plain-IsCodec, plain-StopsAtZero,
  serialize_payload, write_payload, write_text, write_stats, type_code,
}

abbrev new_world : World exact
new_world = record { dictionary = Dictionary.init exact; stats = Stats.init }

abbrev two_threads : List Choice
two_threads =
    thread (bytes "2") ∷ dest_ip (bytes "::1") ∷ port (bytes "6000") ∷ special (bytes "in.csv") ∷ []

abbrev two_clients : TestClient
two_clients = record {
  input_file = bytes "in.csv";
  num_thread = pos 2;
  host = bytes "::1";
  port = pos 6000;
}

two_threads-parsed : parse_options two_threads no_client ≡ some (parsed two_clients)
unfolding parse_options atoi skip_spaces signed_value digits_value int_of
two_threads-parsed = refl

abbrev two_lines : Text
two_lines = bytes "SET,a,7\nGET,a"

abbrev set_turn : Turn
set_turn = record {
  thread = 0;
  message = record { type = some MessageType.set; key = bytes "a"; value = bytes "7" };
  round = record {
    socket = 5;
    cuts = 6 ∷ [];
    fd = 9;
    addr = bytes "f";
    writes = refused 11 ∷ accepts 3 ∷ accepts 90 ∷ [];
    timestamp = 100;
    duration = 30;
  };
}

abbrev get_turn : Turn
get_turn = record {
  thread = 1;
  message = record { type = some MessageType.get; key = bytes "a"; value = [] };
  round = record {
    socket = 6;
    cuts = [];
    fd = 10;
    addr = bytes "g";
    writes = accepts 90 ∷ [];
    timestamp = 140;
    duration = 20;
  };
}

abbrev turns : List Turn
turns = set_turn ∷ get_turn ∷ []

two_lines-divided : chunks 2 (map parse_line (lines two_lines)) ≡ some (shares 0 2 (messages turns))
unfolding parse_line parse_fields line_fields tokens until_nul case_insens_string_compare
    case_insens_equal to_upper trim ltrim rtrim find_first_not_of find_last_not_of is_whitespace
    lines Input.get_message Input.set_message chunks chunk_loop shares own messages
two_lines-divided = refl

turns-AllCarried : AllCarried plain_codec turns nothing
unfolding reply_to build_request request_type reply reply_get frame size_bytes split
    serialize_payload write_payload write_text write_stats type_code capacity text_eq
turns-AllCarried = (
  record {
    type = MessageType.set;
    request = _;
    typed = refl;
    built = refl;
    small = omega arith;
    cut = (omega arith, (omega arith, tt), omega arith);
    short = omega arith;
    retried = (refl, tt);
    taken = omega arith;
  },
  (
    record {
      type = MessageType.get;
      request = _;
      typed = refl;
      built = refl;
      small = omega arith;
      cut = (omega arith, tt, omega arith);
      short = omega arith;
      retried = tt;
      taken = omega arith;
    },
    tt,
  ),
)

abbrev no_memory : ℕ → ℕ
no_memory i = 17

program_answers_example :
    (calls : List (ℕ × (Connect × Exchange))) × (w : World exact) × (pool : List Client) × (serve
        exact plain_codec roomy turns new_world
      ≡ some (calls, w))
    × Represents exact w (final turns nothing)
    × (run_pool plain_codec (sessions_of no_memory calls) 0 (shares 0 2 (messages turns))
        ≡ some pool)
    × (client_main 20 plain_codec
          (λ name. some two_lines)
          (sessions_of no_memory calls)
          9
          two_threads
        ≡ some (
          0,
          some (
              all_lines (entries (answers turns nothing)) ++ latency_line (combine_latency pool 0)),
        ))
    × AllClosed pool
unfolding messages
program_answers_example =
    program_answers exact exact-NoFalseNegatives plain_codec roomy 20 (λ name. some two_lines) 9
      two_threads two_clients two_lines 2 turns nothing new_world no_memory plain-IsCodec
      plain-StopsAtZero (λ k. refl) two_threads-parsed (omega arith) refl (omega arith) refl
      (omega arith) two_lines-divided (omega arith, (omega arith, tt)) turns-AllCarried
      ((omega arith, tt), (tt, tt)) (new-Represents exact)

-- What the file of that run holds.
two_lines-results : all_lines (entries (answers turns nothing)) ≡ bytes "100,SET,a,7\n140,GET,a,7\n"
unfolding answers result_of reply_to reply reply_get build_request request_type entries all_lines
    result_line to_string digits get_req_type text_field value_field stats_fields text_eq
two_lines-results = refl
