-- ===== src/TestClient/Running/Whole.antt =====
-- A whole run of the client program from its input file to its results file
-- (`TestClient::start` of client/src/TestClient.cpp with client/src/Client.cpp).
use mathlib.Core.List.{Perm}
use mathlib.Core.Option.{some-injective}
use remote_dict.Prelude.{
  subst, ℕ, suc, ◌+◌, ◌<◌, ◌≡◌, ◌≢◌, refl, sym, ap, ◌∙◌, Option, some, List, [], ◌∷◌, ◌++◌, map,
  length, pos, arith, length-append,
}
use remote_dict.Text.{Text}
use remote_dict.Payload.{Codec}
use remote_dict.Client.{Message, ResultData, Client}
use remote_dict.Client.Sending.{AllAnswer, AllRequests, outcomes, run_lem}
use remote_dict.TestClient.Input.{read_and_parse_input_file, parse_line}
use remote_dict.TestClient.Input.Lines.{lines, lines-ne_nil, read_and_parse-lines}
use remote_dict.TestClient.Chunks.{chunks, chunks_lem, concat}
use remote_dict.TestClient.Results.{save_results, sort, all_results, combine_latency, latency_line}
use remote_dict.TestClient.Results.Batches.{all_lines, IsSorted, save_results_lem}
use remote_dict.TestClient.Running.{TestClient, Session, run_pool, pool_chunks, start}

-- Every call of the threads from `i` on answers, as often as there are messages.
abbrev pub AllServed : (ℕ → Session) → ℕ → List (List Message) → Type 0
AllServed sessions i [] = Unit
AllServed sessions i (c ∷ cs) =
    AllAnswer (sessions i).calls
    × (length c ≡ length (sessions i).calls)
    × AllServed sessions (i + 1) cs

-- What the threads from `i` on get, thread by thread.
unfoldable pub all_outcomes : Codec → (ℕ → Session) → ℕ → List (List Message) → List ResultData
all_outcomes codec sessions i [] = []
all_outcomes codec sessions i (c ∷ cs) =
    outcomes codec (sessions i).calls ++ all_outcomes codec sessions (i + 1) cs

-- No client has a descriptor left.
abbrev pub AllClosed : List Client → Type 0
AllClosed [] = Unit
AllClosed (c ∷ cs) = (c.open_fds ≡ []) × AllClosed cs

pub AllRequests-append :
    (xs ys : List Message) → AllRequests (xs ++ ys) → AllRequests xs × AllRequests ys
AllRequests-append [] ys h = (tt, h)
AllRequests-append (x ∷ xs) ys h =
    let (front, back) = AllRequests-append xs ys h.1 in ((h.0, front), back)

run_pool_lem :
    (codec : Codec) (sessions : ℕ → Session) (i : ℕ) (cs : List (List Message))
    → AllRequests (concat cs)
    → AllServed sessions i cs
    → (pool : List Client) × (run_pool codec sessions i cs ≡ some pool)
      × (all_results pool ≡ all_outcomes codec sessions i cs)
      × (length (all_results pool) ≡ length (concat cs))
      × AllClosed pool
unfolding run_pool all_outcomes all_results concat
run_pool_lem codec sessions i [] asks served = ([], refl, refl, refl, tt)
run_pool_lem codec sessions i (c ∷ cs) asks (answers, sizes, served) =
    let (mine, others) = AllRequests-append c (concat cs) asks in
    let (client, runs, results, count, closed) =
      run_lem codec (sessions i).garbage c (sessions i).calls mine answers sizes in
    let (pool, runs', results', count', closed') =
      run_pool_lem codec sessions (i + 1) cs others served in
    (
      client ∷ pool,
      rw (runs, runs') refl,
      rw (results, results') refl,
      omega (
        arith,
        length-append client.results (all_results pool),
        length-append c (concat cs),
        count,
        count',
      ),
      (closed, closed'),
    )

length-map : (ls : List Text) → length (map parse_line ls) ≡ length ls
length-map [] = refl
length-map (l ∷ ls) = ap suc (length-map ls)

lines-length : (text : Text) (xs : List Text) → lines text ≡ xs → 0 < length xs
lines-length text [] e = absurd (lines-ne_nil text e)
lines-length text (x ∷ xs) e = omega arith

results-ne_nil : (rs : List ResultData) → 0 < length rs → rs ≢ []
results-ne_nil [] h e = absurd (omega arith)
results-ne_nil (r ∷ rs) h e = cc

-- The chunks are the messages.
pub divides :
    (n : ℕ) (input : List Message) (cs : List (List Message))
    → 0 < n
    → chunks n input ≡ some cs
    → concat cs ≡ input
divides n input cs h e =
    let (cs', e', whole, _, _) = chunks_lem n input h in
    ap concat (some-injective cs cs' (sym e ∙ e')) ∙ whole

start-runs :
    (fuel : ℕ) (codec : Codec) (files : Text → Option Text) (sessions : ℕ → Session)
    (t : TestClient) (text : Text) (input : List Message) (n : ℕ) (cs : List (List Message))
    (pool : List Client)
    → files t.input_file ≡ some text
    → read_and_parse_input_file fuel (some text) ≡ some input
    → t.num_thread ≡ pos n
    → chunks n input ≡ some cs
    → run_pool codec sessions 0 cs ≡ some pool
    → start fuel codec files sessions t ≡ some (save_results pool)
unfolding start pool_chunks
start-runs fuel codec files sessions t text input n cs pool opens reads count divided runs =
    rw (opens, reads) (rw (count, pool_chunks) (rw divided (rw runs refl)))

-- If the file can be opened and each of its lines is a request, the thread count is positive, the
-- fuel is more than the bytes of the file and one, and every call of every thread answers in one
-- read, then the run comes to its end, every line leaves one result, no descriptor stays open, and
-- the results file gets the lines of all results in the order of their times and the line of the
-- average latency.
pub start_lem :
    (fuel : ℕ) (codec : Codec) (files : Text → Option Text) (sessions : ℕ → Session)
    (t : TestClient) (text : Text) (n : ℕ) (cs : List (List Message))
    → files t.input_file ≡ some text
    → length text + 1 < fuel
    → t.num_thread ≡ pos n
    → 0 < n
    → AllRequests (map parse_line (lines text))
    → chunks n (map parse_line (lines text)) ≡ some cs
    → AllServed sessions 0 cs
    → (pool : List Client) × (run_pool codec sessions 0 cs ≡ some pool)
      × (start fuel codec files sessions t
          ≡ some
              (some (all_lines (sort (all_results pool)) ++ latency_line (combine_latency pool 0))))
      × (all_results pool ≡ all_outcomes codec sessions 0 cs)
      × (length (all_results pool) ≡ length (lines text))
      × IsSorted (sort (all_results pool))
      × Perm (sort (all_results pool)) (all_results pool)
      × AllClosed pool
start_lem fuel codec files sessions t text n cs opens enough count some_thread asks divided served =
    let whole : concat cs ≡ map parse_line (lines text) = divides n _ cs some_thread divided in
    let (pool, runs, results, size, closed) =
      run_pool_lem codec sessions 0 cs (subst AllRequests (sym whole) asks) served in
    let each : length (all_results pool) ≡ length (lines text) =
      size ∙ ap length whole ∙ length-map (lines text) in
    let (saved, sorted, perm) =
      save_results_lem pool
        (results-ne_nil (all_results pool) (omega (arith, each, lines-length text _ refl))) in
    (
      pool,
      runs,
      start-runs fuel codec files sessions t text _ n cs pool opens
            (read_and_parse-lines fuel text enough) count divided runs
          ∙ ap some saved,
      results,
      each,
      sorted,
      perm,
      closed,
    )
