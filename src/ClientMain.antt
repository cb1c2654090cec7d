-- ===== src/ClientMain.antt =====
-- `main` of client/src/TestClient.cpp: the options of the client program and its run.
pub mod Results
use remote_dict.Prelude.{ℕ, Option, none, some, List, [], ◌∷◌, ltb, if◌then◌else◌, ◌>>=◌, ℤ, pos}
use remote_dict.Text.{Text}
use remote_dict.Payload.{Codec}
use remote_dict.Options.{
  Choice, help, unknown, thread, dest_ip, port, special, Parsed, refused, parsed, atoi,
}
use remote_dict.TestClient.Running.{TestClient, Session, start}

-- The local variables of `main`: they are the arguments of the constructor.
abbrev pub no_client : TestClient
no_client = record { input_file = []; num_thread = pos 0; host = []; port = pos 0 }

unfoldable pub parse_options : List Choice → TestClient → Option (Parsed TestClient)
parse_options [] t = some (parsed t)
parse_options (help ∷ cs) t = parse_options cs t
parse_options (thread arg ∷ cs) t = do n ← atoi arg; parse_options cs (record t { num_thread = n })
parse_options (dest_ip arg ∷ cs) t = parse_options cs (record t { host = arg })
parse_options (port arg ∷ cs) t = do n ← atoi arg; parse_options cs (record t { port = n })
parse_options (special arg ∷ cs) t = parse_options cs (record t { input_file = arg })
parse_options (unknown ∷ cs) t = some refused

-- The exit code, and what the run appends to the results file.
unfoldable pub client_main :
    ℕ → Codec → (Text → Option Text) → (ℕ → Session) → ℕ → List Choice → Option (ℕ × Option Text)
unfolding parse_options
client_main fuel codec files sessions argc choices = do
  p ← parse_options choices no_client
  elim p [
    | refused ↦ some (1, none)
    | parsed t ↦
        if ltb argc 9
        then some (1, none)
        else (do out ← start fuel codec files sessions t; some (0, out))
  ]
