-- ===== src/ClientMain/Results.antt =====
-- A whole run of the client program, from its options to its results file: `main` of
-- client/src/TestClient.cpp with `TestClient::start` and client/src/Client.cpp.
use mathlib.Core.List.{Perm}
use remote_dict.Prelude.{
  ℕ, ◌+◌, ◌<◌, ◌≤◌, ◌≡◌, refl, false, Option, some, List, ◌++◌, map, length, ltb, pos, arith,
}
use remote_dict.Text.{Text}
use remote_dict.Payload.{Codec}
use remote_dict.Options.{Choice, parsed}
use remote_dict.Client.{Message, Client}
use remote_dict.Client.Sending.{AllRequests}
use remote_dict.TestClient.Input.{parse_line}
use remote_dict.TestClient.Input.Lines.{lines}
use remote_dict.TestClient.Chunks.{chunks}
use remote_dict.TestClient.Results.{sort, all_results, combine_latency, latency_line}
use remote_dict.TestClient.Results.Batches.{all_lines, IsSorted}
use remote_dict.TestClient.Running.{TestClient, Session, run_pool, start}
use remote_dict.TestClient.Running.Whole.{AllServed, AllClosed, all_outcomes, start_lem}
use remote_dict.ClientMain.{no_client, parse_options, client_main}

-- `main` with options that it accepts.
client_main-runs :
    (fuel : ℕ) (codec : Codec) (files : Text → Option Text) (sessions : ℕ → Session) (argc : ℕ)
    (choices : List Choice) (t : TestClient) (out : Option Text)
    → parse_options choices no_client ≡ some (parsed t)
    → 9 ≤ argc
    → start fuel codec files sessions t ≡ some out
    → client_main fuel codec files sessions argc choices ≡ some (0, out)
unfolding client_main
client_main-runs fuel codec files sessions argc choices t out options words starts =
    let enough : ltb argc 9 ≡ false = ground arith in rw options (rw enough (rw starts refl))

-- Options that are accepted and give a positive thread count, at least nine words on the command
-- line, a file that can be opened and whose lines are all requests, more fuel than the bytes of the
-- file and one, and calls, one for each message of each thread, that all answer in one read: the
-- program ends with exit code 0, every line leaves one result, no descriptor stays open, and the
-- results file gets the lines of all results in the order of their times and the line of the
-- average latency.
pub client_main_lem :
    (fuel : ℕ) (codec : Codec) (files : Text → Option Text) (sessions : ℕ → Session) (argc : ℕ)
    (choices : List Choice) (t : TestClient) (text : Text) (n : ℕ) (cs : List (List Message))
    → parse_options choices no_client ≡ some (parsed t)
    → 9 ≤ argc
    → files t.input_file ≡ some text
    → length text + 1 < fuel
    → t.num_thread ≡ pos n
    → 0 < n
    → AllRequests (map parse_line (lines text))
    → chunks n (map parse_line (lines text)) ≡ some cs
    → AllServed sessions 0 cs
    → (pool : List Client) × (run_pool codec sessions 0 cs ≡ some pool)
      × (client_main fuel codec files sessions argc choices
          ≡ some (
            0,
            some (all_lines (sort (all_results pool)) ++ latency_line (combine_latency pool 0)),
          ))
      × (all_results pool ≡ all_outcomes codec sessions 0 cs)
      × (length (all_results pool) ≡ length (lines text))
      × IsSorted (sort (all_results pool))
      × Perm (sort (all_results pool)) (all_results pool)
      × AllClosed pool
client_main_lem fuel codec files sessions argc choices t text n cs options words opens enough count
      some_thread asks divided served =
    let (pool, runs, starts, results, each, sorted, perm, closed) =
      start_lem fuel codec files sessions t text n cs opens enough count some_thread asks divided
        served in
    (
      pool,
      runs,
      client_main-runs fuel codec files sessions argc choices t _ options words starts,
      results,
      each,
      sorted,
      perm,
      closed,
    )
