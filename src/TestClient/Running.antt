-- ===== src/TestClient/Running.antt =====
-- `TestClient::start` and its constructor (client/src/TestClient.cpp): reading, dividing, running
-- and saving. The clients share no state, so their threads run one after the other here. The files,
-- the indeterminate first latency of each client and what its calls give are arguments; the
-- allocation of a client or a thread succeeds. `none` is undefined behaviour or a lack of fuel.
pub mod Whole
use remote_dict.Prelude.{
  ℕ, zero, suc, ◌+◌, Option, none, some, List, [], ◌∷◌, ◌>>=◌, ℤ, pos, negsuc,
}
use remote_dict.Text.{Text}
use remote_dict.Payload.{Codec}
use remote_dict.Client.{Message, Client, new_client, Connect, Exchange, run}
use remote_dict.TestClient.Input.{read_and_parse_input_file}
use remote_dict.TestClient.Chunks.{chunks}
use remote_dict.TestClient.Results.{save_results}

pub record TestClient : Type 0 where
  pub input_file : Text
  pub num_thread : ℤ
  pub host : Text
  pub port : ℤ

-- What the client of a thread meets: its memory, and its calls.
pub record Session : Type 0 where
  pub garbage : ℕ
  pub calls : List (Connect × Exchange)

-- The threads from `i` on, with the messages of each.
unfoldable pub run_pool : Codec → (ℕ → Session) → ℕ → List (List Message) → Option (List Client)
run_pool codec sessions i [] = some []
run_pool codec sessions i (chunk ∷ rest) = do
  c ← run codec (sessions i).calls (new_client (sessions i).garbage chunk)
  pool ← run_pool codec sessions (i + 1) rest
  some (c ∷ pool)

-- A negative thread count is a large divisor, and no thread is made.
unfoldable pub pool_chunks : ℤ → List Message → Option (List (List Message))
pool_chunks (pos n) input = chunks n input
pool_chunks (negsuc n) input = some []

-- `start`: what it appends to the results file, `none` inside for nothing.
unfoldable pub start :
    ℕ → Codec → (Text → Option Text) → (ℕ → Session) → TestClient → Option (Option Text)
unfolding run_pool pool_chunks
start fuel codec files sessions t = do
  input ← read_and_parse_input_file fuel (files t.input_file)
  divided ← pool_chunks t.num_thread input
  pool ← run_pool codec sessions 0 divided
  some (save_results pool)
