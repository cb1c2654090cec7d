-- ===== src/System/Program.antt =====
-- A whole run of the client program against the server: `main` and `TestClient::start` of
-- client/src/TestClient.cpp, client/src/Client.cpp and server/src/TcpFlow.cpp.
use remote_dict.Prelude.{
  ℕ, zero, suc, ◌+◌, ◌≤◌, ◌<◌, ◌≡◌, refl, ap, ◌∙◌, subst, Bool, true, Option, some, List, [], ◌∷◌,
  ◌++◌, map, length, pos, Bool-cases, inl, inr, ◌==◌,
}
use remote_dict.Text.{Text}
use remote_dict.BloomFilter.{BloomFilter, NoFalseNegatives}
use remote_dict.Payload.{Codec, IsCodec}
use remote_dict.TcpFlow.Requests.{World}
use remote_dict.Options.{Choice, parsed}
use remote_dict.Client.{Message, ResultData, Client, Connect, Exchange}
use remote_dict.Client.Sending.{AllRequests, AllAnswer, outcomes}
use remote_dict.Client.RoundTrip.{StopsAtZero}
use remote_dict.TestClient.Input.{parse_line}
use remote_dict.TestClient.Input.Lines.{lines}
use remote_dict.TestClient.Chunks.{chunks, concat}
use remote_dict.TestClient.Results.{sort, all_results, combine_latency, latency_line}
use remote_dict.TestClient.Results.Batches.{all_lines}
use remote_dict.TestClient.Running.{TestClient, Session, run_pool}
use remote_dict.TestClient.Running.Whole.{AllServed, AllClosed, all_outcomes, divides}
use remote_dict.ClientMain.{no_client, parse_options, client_main}
use remote_dict.ClientMain.Results.{client_main_lem}
use remote_dict.System.{Turn, own, serve}
use remote_dict.TcpFlow.Ideal.{Ideal, Represents}
use remote_dict.System.Answers.{
  AllCarried, Meets, answer_to, result_of, answers, final, serve-answers,
}
use remote_dict.System.Merge.{shares, gather, entries, All, Later, AllBelow, IsTimed, sort-gather}

-- The messages of the turns, with their threads.
unfoldable pub messages : List Turn → List (ℕ × Message)
messages [] = []
messages (t ∷ ts) = (t.thread, t.message) ∷ messages ts

-- What each thread meets, from what all of them meet.
abbrev pub sessions_of : (ℕ → ℕ) → List (ℕ × (Connect × Exchange)) → ℕ → Session
sessions_of garbage calls i = record { garbage = garbage i; calls = own i calls }

AllRequests-merged :
    (xs ys : List Message) → AllRequests xs → AllRequests ys → AllRequests (xs ++ ys)
AllRequests-merged [] ys h k = k
AllRequests-merged (x ∷ xs) ys h k = (h.0, AllRequests-merged xs ys h.1 k)

module _ (codec : Codec) where
  own-AllRequests :
      (i : ℕ) (ts : List Turn) (s : Ideal)
      → AllCarried codec ts s
      → AllRequests (own i (messages ts))
  unfolding own messages
  own-AllRequests i [] s h = tt
  own-AllRequests i (t ∷ ts) s h =
      let rest = own-AllRequests i ts (answer_to t.message s).1 h.1 in
      elim (Bool-cases (t.thread == i)) [
        | inl mine ↦ let c = h.0 in rw mine ((c.type, c.request, c.typed, c.built), rest)
        | inr other ↦ rw other rest
      ]

  shares-AllRequests :
      (i n : ℕ) (ts : List Turn) (s : Ideal)
      → AllCarried codec ts s
      → AllRequests (concat (shares i n (messages ts)))
  unfolding shares concat
  shares-AllRequests i zero ts s h = tt
  shares-AllRequests i (suc n) ts s h =
      AllRequests-merged (own i (messages ts)) _ (own-AllRequests i ts s h)
        (shares-AllRequests (i + 1) n ts s h)

  -- A thread's calls all answer, one for each of its messages, with the ideal server's results.
  own-Meets :
      (i : ℕ) (ts : List Turn) (s : Ideal) (calls : List (ℕ × (Connect × Exchange)))
      → Meets codec ts s calls
      → AllAnswer (own i calls)
        × (length (own i (messages ts)) ≡ length (own i calls))
        × (outcomes codec (own i calls) ≡ own i (answers ts s))
  unfolding own messages answers outcomes
  own-Meets i [] s [] h = (tt, refl, refl)
  own-Meets i [] s (e ∷ calls) h = absurd h
  own-Meets i (t ∷ ts) s [] h = absurd h
  own-Meets i (t ∷ ts) s ((j, e) ∷ calls) h =
      let (same, up, found, rest) = h in
      let (ups, sizes, all) = own-Meets i ts (answer_to t.message s).1 calls rest in
      elim (Bool-cases (t.thread == i)) [
        | inl mine ↦ rw (same, mine) ((up, ups), ap suc sizes, rw (found, all) refl)
        | inr other ↦ rw (same, other) (ups, sizes, all)
      ]

  shares-AllServed :
      (garbage : ℕ → ℕ) (i n : ℕ) (ts : List Turn) (s : Ideal)
      (calls : List (ℕ × (Connect × Exchange)))
      → Meets codec ts s calls
      → AllServed (sessions_of garbage calls) i (shares i n (messages ts))
        × (all_outcomes codec (sessions_of garbage calls) i (shares i n (messages ts))
            ≡ gather i n (answers ts s))
  unfolding shares gather all_outcomes
  shares-AllServed garbage i zero ts s calls h = (tt, refl)
  shares-AllServed garbage i (suc n) ts s calls h =
      let (ups, sizes, all) = own-Meets i ts s calls h in
      let (served, gathered) = shares-AllServed garbage (i + 1) n ts s calls h in
      ((ups, sizes, served), rw (all, gathered) refl)

-- The turns are of threads of the program.
AllBelow-answers :
    (n : ℕ) (ts : List Turn) (s : Ideal) → AllBelow n (messages ts) → AllBelow n (answers ts s)
unfolding messages answers
AllBelow-answers n [] s h = tt
AllBelow-answers n (t ∷ ts) s h = (h.0, AllBelow-answers n ts (answer_to t.message s).1 h.1)

-- The clients' clocks grow from turn to turn.
abbrev pub AllLater : ℕ → List Turn → Type 0
AllLater now [] = Unit
AllLater now (t ∷ ts) = (now < t.round.timestamp) × AllLater now ts

abbrev pub Increasing : List Turn → Type 0
Increasing [] = Unit
Increasing (t ∷ ts) = AllLater t.round.timestamp ts × Increasing ts

AllLater-answers :
    (r : ResultData) (ts : List Turn) (s : Ideal)
    → AllLater r.timestamp ts
    → All (Later r) (entries (answers ts s))
unfolding answers entries result_of
AllLater-answers r [] s h = tt
AllLater-answers r (t ∷ ts) s h = (h.0, AllLater-answers r ts (answer_to t.message s).1 h.1)

answers-IsTimed : (ts : List Turn) (s : Ideal) → Increasing ts → IsTimed (answers ts s)
unfolding answers result_of
answers-IsTimed [] s h = tt
answers-IsTimed (t ∷ ts) s h =
    let s' : Ideal = (answer_to t.message s).1 in
    (AllLater-answers (result_of t s) ts s' h.0, answers-IsTimed ts s' h.1)

-- The client program runs with options that it accepts, `n` threads and a file that can be opened,
-- on more fuel than the bytes of the file and one. Its requests are served in the order of the
-- turns, which give each thread the messages of its part of the file, by a server that can
-- allocate and does not use the filter; every message makes a request, the
-- network carries each request and its answer, which is shorter than 80 bytes, and the clocks of
-- the answers grow. Then the server handles every turn, and ends in the state of the ideal server;
-- the program ends with exit code 0, no descriptor stays open, and the results file gets the lines
-- of the ideal server's answers in the order of the turns, and the line of the average latency.
pub program_answers :
    (b : BloomFilter) (laws : NoFalseNegatives b) (codec : Codec) (alloc : ℕ → Bool) (fuel : ℕ)
    (files : Text → Option Text) (argc : ℕ) (choices : List Choice) (t : TestClient) (text : Text)
    (n : ℕ) (ts : List Turn) (s : Ideal) (w : World b) (garbage : ℕ → ℕ)
    → IsCodec codec
    → StopsAtZero codec
    → ((k : ℕ) → alloc k ≡ true)
    → parse_options choices no_client ≡ some (parsed t)
    → 9 ≤ argc
    → files t.input_file ≡ some text
    → length text + 1 < fuel
    → t.num_thread ≡ pos n
    → 0 < n
    → chunks n (map parse_line (lines text)) ≡ some (shares 0 n (messages ts))
    → AllBelow n (messages ts)
    → AllCarried codec ts s
    → Increasing ts
    → Represents b w s
    → (calls : List (ℕ × (Connect × Exchange))) × (w' : World b) × (pool : List Client) × (serve b
          codec alloc ts w
        ≡ some (calls, w'))
      × Represents b w' (final ts s)
      × (run_pool codec (sessions_of garbage calls) 0 (shares 0 n (messages ts)) ≡ some pool)
      × (client_main fuel codec files (sessions_of garbage calls) argc choices
          ≡ some (
            0,
            some (all_lines (entries (answers ts s)) ++ latency_line (combine_latency pool 0)),
          ))
      × AllClosed pool
program_answers b laws codec alloc fuel files argc choices t text n ts s w garbage is_codec stops
      room options words opens enough count some_thread divided below carried timed r =
    let (calls, w', serves, meets, r') =
      serve-answers b laws codec is_codec stops alloc room ts s w carried r in
    let (served, gathered) = shares-AllServed codec garbage 0 n ts s calls meets in
    let whole : concat (shares 0 n (messages ts)) ≡ map parse_line (lines text) =
      divides n _ _ some_thread divided in
    let (pool, runs, ends, results, _, _, _, closed) =
      client_main_lem fuel codec files (sessions_of garbage calls) argc choices t text n
        (shares 0 n (messages ts)) options words opens enough count some_thread
        (subst AllRequests whole (shares-AllRequests codec 0 n ts s carried)) divided served in
    let sorted : sort (all_results pool) ≡ entries (answers ts s) =
      ap sort (results ∙ gathered)
      ∙ sort-gather n (answers ts s) (AllBelow-answers n ts s below) (answers-IsTimed ts s timed) in
    (
      calls,
      w',
      pool,
      serves,
      r',
      runs,
      ends
          ∙ ap (λ rs. some (0, some (all_lines rs ++ latency_line (combine_latency pool 0))))
              sorted,
      closed,
    )
