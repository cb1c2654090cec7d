-- ===== src/Client/Sending.antt =====
-- `Client::run` and `Client::sendData` (client/src/Client.cpp): which requests leave a result, and
-- which descriptors stay open.
use remote_dict.Prelude.{
  ℕ, ◌≡◌, refl, sym, ap, ◌∙◌, true, false, none, some, List, [], ◌∷◌, ◌++◌, length, take, arith,
  ◌⊎◌, inl, inr, append_assoc, append-nil,
}
use remote_dict.Text.{Text}
use remote_dict.Payload.{Payload, Codec}
use remote_dict.Client.{
  MessageType, Message, ResultData, Client, new_client, Connect, Exchange, build_request,
  store_result, remove_fd, run_one, run_loop, run, max_response,
}

-- A round in which the connection opens, the request is written and a response comes.
abbrev pub Answers : Connect × Exchange → Type 0
Answers (calls, x) =
    (calls.connects ≡ true)
    × ((fd : ℕ) × (calls.socket ≡ some fd))
    × ((n : ℕ) × (x.written ≡ some n))
    × ((t : Text) × (x.response ≡ some t))

abbrev pub AllAnswer : List (Connect × Exchange) → Type 0
AllAnswer [] = Unit
AllAnswer (e ∷ es) = Answers e × AllAnswer es

-- A message that makes a request.
abbrev pub IsRequest : Message → Type 0
IsRequest m =
    (type : MessageType) × (p : Payload) × (m.type ≡ some type) × (build_request type m ≡ some p)

abbrev pub AllRequests : List Message → Type 0
AllRequests [] = Unit
AllRequests (m ∷ ms) = IsRequest m × AllRequests ms

-- What the response of a round holds, as far as the buffer goes, and those of all rounds.
unfoldable pub outcome : Codec → Connect × Exchange → List ResultData
outcome codec (calls, x) = elim x.response [
  | none ↦ []
  | some t ↦
      record { payload = (codec.parse (take max_response t)).1; timestamp = x.timestamp } ∷ []
]

unfoldable pub outcomes : Codec → List (Connect × Exchange) → List ResultData
outcomes codec [] = []
outcomes codec (e ∷ es) = outcome codec e ++ outcomes codec es

length-outcomes :
    (codec : Codec) (es : List (Connect × Exchange))
    → AllAnswer es
    → length (outcomes codec es) ≡ length es
unfolding outcomes outcome
length-outcomes codec [] h = refl
length-outcomes codec ((calls, x) ∷ es) ((up, s, w, (t, r)), h) =
    ground (arith, length-outcomes codec es h)

remove_fd_head : (fd : ℕ) (fds : List ℕ) → remove_fd (some fd) (fd ∷ fds) ≡ fds
unfolding remove_fd
remove_fd_head fd fds = ground arith

run_one_lem :
    (codec : Codec) (m : Message) (e : Connect × Exchange) (c : Client)
    → IsRequest m
    → Answers e
    → (c' : Client) × (run_one codec m e c ≡ some c')
      × (c'.results ≡ c.results ++ outcome codec e)
      × (c'.open_fds ≡ c.open_fds)
unfolding run_one outcome
run_one_lem codec m (calls, x) c (type, p, t, b) (up, (fd, s), (n, w), (text, r)) = (
  store_result codec (take max_response text) x
      (record c { fd = some fd; open_fds = fd ∷ c.open_fds }),
  ground arith,
  ground arith,
  remove_fd_head fd c.open_fds,
)

-- Where every round answers, each request leaves one result, in order, and no descriptor.
run_loop_lem :
    (codec : Codec) (ms : List Message) (es : List (Connect × Exchange)) (c : Client)
    → AllRequests ms
    → AllAnswer es
    → length ms ≡ length es
    → (c' : Client) × (run_loop codec ms es c ≡ some c')
      × (c'.results ≡ c.results ++ outcomes codec es)
      × (c'.open_fds ≡ c.open_fds)
unfolding run_loop outcomes
run_loop_lem codec [] [] c ms es l = (c, refl, sym (append-nil c.results), refl)
run_loop_lem codec [] (e ∷ es) c hm he l = absurd (omega arith)
run_loop_lem codec (m ∷ ms) [] c hm he l = absurd (omega arith)
run_loop_lem codec (m ∷ ms) (e ∷ es) c hm he l =
    let (c₁, r₁, o₁, f₁) = run_one_lem codec m e c hm.0 he.0 in
    let (c₂, r₂, o₂, f₂) = run_loop_lem codec ms es c₁ hm.1 he.1 (omega arith) in
    (
      c₂,
      rw r₁ r₂,
      o₂
          ∙ ap (λ l. l ++ outcomes codec es) o₁
          ∙ append_assoc c.results (outcome codec e) (outcomes codec es),
      f₂ ∙ f₁,
    )

-- A client whose messages are all requests and whose server answers each of them in one read
-- stores one result for each message, in order, with the time of its exchange, and leaves no
-- descriptor open.
pub run_lem :
    (codec : Codec) (garbage : ℕ) (ms : List Message) (es : List (Connect × Exchange))
    → AllRequests ms
    → AllAnswer es
    → length ms ≡ length es
    → (c : Client) × (run codec es (new_client garbage ms) ≡ some c)
      × (c.results ≡ outcomes codec es)
      × (length c.results ≡ length ms)
      × (c.open_fds ≡ [])
unfolding run
run_lem codec garbage ms es hm he l =
    let (c, r, o, f) = run_loop_lem codec ms es (new_client garbage ms) hm he l in
    (c, r, o, ap length o ∙ length-outcomes codec es he ∙ sym l, f)

-- A new socket whose connection is refused, or through which a SET without a value is to be sent,
-- stays open, and no result is stored.
run_one-leak :
    (codec : Codec) (m : Message) (calls : Connect) (x : Exchange) (c : Client) (fd : ℕ)
    → calls.socket ≡ some fd
    → (calls.connects ≡ false) ⊎ ((m.type ≡ some MessageType.set) × (m.value ≡ []))
    → (c' : Client) × (run_one codec m (calls, x) c ≡ some c')
      × (c'.open_fds ≡ fd ∷ c.open_fds)
      × (c'.results ≡ c.results)
unfolding run_one
run_one-leak codec m calls x c fd s (inl down) =
    (record c { fd = some fd; open_fds = fd ∷ c.open_fds }, ground arith, refl, refl)
run_one-leak codec m calls x c fd s (inr (t, v)) =
    (record c { fd = some fd; open_fds = fd ∷ c.open_fds }, ground arith, refl, refl)
