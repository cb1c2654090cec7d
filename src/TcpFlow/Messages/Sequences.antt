-- ===== src/TcpFlow/Messages/Sequences.antt =====
-- One request of a client whose bytes come in over several wake-ups of the worker: the callback
-- `TcpFlow::data` (server/src/TcpFlow.cpp) many times in a row.
use remote_dict.Prelude.{
  ℕ, ◌+◌, ◌%◌, ◌≤◌, ◌<◌, ◌≡◌, refl, sym, ap, ◌∙◌, subst, Bool, true, false, Option, none, some,
  List, [], ◌∷◌, ◌++◌, length, append_assoc, append-nil, arith, length-append, ◌>>=◌, u32_mod, map,
  leb, if◌then◌else◌,
}
use remote_dict.Text.{Text}
use remote_dict.BloomFilter.{BloomFilter}
use remote_dict.Payload.{Payload, RequestType, Codec, IsCodec}
use remote_dict.TcpFlow.Buffer.{Flow, Read, received, finished, read_loop, le32, num_read_try}
use remote_dict.TcpFlow.Write.{Write, Written, socket_write_data}
use remote_dict.TcpFlow.Requests.{World, handle_request}
use remote_dict.TcpFlow.Callback.{Done, ev_read, after_reads, data_event}
use remote_dict.TcpFlow.Reassembly.{Holds, first-Holds, read_loop-Holds, concat, NonEmpty}
use remote_dict.TcpFlow.Messages.{IsFresh, completes}

-- The chunks of a message behind its first read, by wake-up: before the last wake-up more than
-- four bytes are missing, and with the last one none is. `g` bytes are there before.
abbrev pub Arrives : ℕ → ℕ → List (List Text) → Type 0
Arrives n g [] = ⊥
Arrives n g (cs ∷ []) = NonEmpty cs × (length cs ≤ num_read_try) × (g + length (concat cs) ≡ n)
Arrives n g (cs ∷ ds ∷ more) =
    NonEmpty cs
    × (length cs ≤ num_read_try)
    × (g + length (concat cs) + 4 < n)
    × Arrives n (g + length (concat cs)) (ds ∷ more)

-- The bytes of all wake-ups.
unfoldable pub joined : List (List Text) → Text
joined [] = []
joined (cs ∷ more) = concat cs ++ joined more

module _ (b : BloomFilter) (codec : Codec) (alloc : ℕ → Bool) where
  -- A response, if there is one, before those of later wake-ups.
  abbrev pub prepend : Option Written → List Written → List Written
  prepend none sent = sent
  prepend (some r) sent = r ∷ sent

  -- The callback for one wake-up after another, until one drops the connection: how the last one
  -- ends, and all responses.
  unfoldable pub data_events :
      ℕ → List (List Read) → List Write → Flow → World b → Option (Done b × List Written)
  data_events fd [] writes f w =
      some (record { flow = f; gone = false; world = w; response = none; unread = [] }, [])
  data_events fd (reads ∷ []) writes f w = do
    d ← data_event b codec alloc fd ev_read reads writes f w
    some (d, prepend d.response [])
  data_events fd (reads ∷ next ∷ more) writes f w = do
    d ← data_event b codec alloc fd ev_read reads writes f w
    rest ← if d.gone then some (d, []) else data_events fd (next ∷ more) writes d.flow d.world
    some (rest.0, prepend d.response rest.1)

  -- A wake-up that leaves more than four bytes missing changes nothing but the flow.
  waits :
      (fd : ℕ) (reads : List Read) (writes : List Write) (f f' : Flow) (got : Text) (n : ℕ)
      (w : World b)
      → read_loop alloc num_read_try reads (record f { client_fd = some fd })
        ≡ some (finished f' [])
      → Holds f' got n
      → length got + 4 < n
      → data_event b codec alloc fd ev_read reads writes f w
        ≡ some (record { flow = f'; gone = false; world = w; response = none; unread = [] })
  unfolding data_event after_reads
  waits fd reads writes f f' got n w l h short =
      let late : leb f'.payload_len f'.len_till_now ≡ false =
        ground (arith, h.announced, h.counted) in
      rw (l, late) refl

  read_again :
      (fd : ℕ) (f : Flow) (got : Text) (cs : List Text) (n : ℕ)
      → Holds f got n
      → NonEmpty cs
      → length cs ≤ num_read_try
      → length got + length (concat cs) ≤ n
      → n + 4 < u32_mod
      → (f' : Flow) × (read_loop alloc num_read_try
            (map received cs)
            (record f { client_fd = some fd })
          ≡ some (finished f' []))
        × Holds f' (got ++ concat cs) n
  read_again fd f got cs n h ne few fits small =
      read_loop-Holds alloc num_read_try (record f { client_fd = some fd }) got cs n
        (record {
          filled = h.filled;
          offset = h.offset;
          announced = h.announced;
          counted = h.counted;
        })
        ne few fits small

  -- The reads of the wake-up that brings the header.
  read_first :
      (fd : ℕ) (f : Flow) (h₀ h₁ h₂ h₃ x : ℕ) (start : Text) (cs : List Text) (n : ℕ)
      → IsFresh f
      → le32 (h₀ ∷ h₁ ∷ h₂ ∷ h₃ ∷ []) ≡ n
      → alloc n ≡ true
      → NonEmpty cs
      → length cs < num_read_try
      → length (x ∷ start) + length (concat cs) ≤ n
      → n + 4 < u32_mod
      → (f' : Flow) × (read_loop alloc num_read_try
            (received (h₀ ∷ h₁ ∷ h₂ ∷ h₃ ∷ x ∷ start) ∷ map received cs)
            (record f { client_fd = some fd })
          ≡ some (finished f' []))
        × Holds f' ((x ∷ start) ++ concat cs) n
  unfolding read_loop
  read_first fd f h₀ h₁ h₂ h₃ x start cs n fresh header room ne few fits small =
      let (f₁, e, h) =
        first-Holds alloc (record f { client_fd = some fd }) h₀ h₁ h₂ h₃ x start n fresh.null
          fresh.nothing header room (omega arith) small in
      let (f₂, e', h') =
        read_loop-Holds alloc 49 f₁ (x ∷ start) cs n h ne (omega arith) fits small in
      (f₂, rw e e', h')

  abbrev Handled : List Write → Payload → World b → Option (Done b × List Written) → Type 0
  Handled writes q w' r =
      (done : Done b) × (r
        ≡ some (done, socket_write_data writes (codec.serialize q ++ (0 ∷ [])) ∷ []))
      × (done.gone ≡ false)
      × (done.world ≡ w')
      × (done.flow.payload ≡ q)
      × (done.unread ≡ [])

  -- The last wake-up.
  last-Handled :
      (fd : ℕ) (reads : List Read) (writes : List Write) (f f' : Flow) (p q : Payload)
      (w w' : World b) (type : RequestType)
      → IsCodec codec
      → read_loop alloc num_read_try reads (record f { client_fd = some fd })
        ≡ some (finished f' [])
      → Holds f' (codec.serialize p) (length (codec.serialize p))
      → p.requesttype ≡ some type
      → handle_request b type p w ≡ some (q, w')
      → alloc ((length (codec.serialize q) + 1) % u32_mod) ≡ true
      → Handled writes q w' (data_events fd (reads ∷ []) writes f w)
  unfolding data_events
  last-Handled fd reads writes f f' p q w w' type laws l h t e room =
      let (done, runs, stays, state, answer, sent, none_left) =
        completes b codec alloc fd reads writes f f' p q w w' type laws l h t e room in
      (done, rw (runs, sent) refl, stays, state, answer, none_left)

  -- A wake-up before it.
  later-Handled :
      (fd : ℕ) (reads next : List Read) (more : List (List Read)) (writes : List Write)
      (f f' : Flow) (q : Payload) (w w' : World b)
      → data_event b codec alloc fd ev_read reads writes f w
        ≡ some (record { flow = f'; gone = false; world = w; response = none; unread = [] })
      → Handled writes q w' (data_events fd (next ∷ more) writes f' w)
      → Handled writes q w' (data_events fd (reads ∷ next ∷ more) writes f w)
  unfolding data_events
  later-Handled fd reads next more writes f f' q w w' wait
        (done, runs, stays, state, answer, left) =
      (done, rw (wait, data_events) (rw runs refl), stays, state, answer, left)

  rest-Handled :
      (wakes : List (List Text)) (fd : ℕ) (writes : List Write) (f : Flow) (got : Text)
      (p q : Payload) (w w' : World b) (type : RequestType)
      → IsCodec codec
      → length (codec.serialize p) + 4 < u32_mod
      → p.requesttype ≡ some type
      → handle_request b type p w ≡ some (q, w')
      → alloc ((length (codec.serialize q) + 1) % u32_mod) ≡ true
      → Holds f got (length (codec.serialize p))
      → Arrives (length (codec.serialize p)) (length got) wakes
      → got ++ joined wakes ≡ codec.serialize p
      → Handled writes q w' (data_events fd (map (map received) wakes) writes f w)
  unfolding data_events joined
  rest-Handled [] fd writes f got p q w w' type laws small t e room h a whole = absurd a
  rest-Handled (cs ∷ []) fd writes f got p q w w' type laws small t e room h (ne, few, full) whole =
      let (f', l, h') = read_again fd f got cs _ h ne few (omega arith) small in
      let all : got ++ concat cs ≡ codec.serialize p =
        ap (λ s. got ++ s) (sym (append-nil (concat cs))) ∙ whole in
      last-Handled fd (map received cs) writes f f' p q w w' type laws l
        (subst (λ s. Holds f' s (length (codec.serialize p))) all h') t e room
  rest-Handled (cs ∷ ds ∷ more) fd writes f got p q w w' type laws small t e room h
        (ne, few, short, a) whole =
      let size : length (got ++ concat cs) ≡ length got + length (concat cs) =
        length-append got (concat cs) in
      let (f', l, h') = read_again fd f got cs _ h ne few (omega arith) small in
      let rest =
        rest-Handled (ds ∷ more) fd writes f' (got ++ concat cs) p q w w' type laws small t e room
          h' (subst (λ g. Arrives (length (codec.serialize p)) g (ds ∷ more)) (sym size) a)
          (append_assoc got (concat cs) (joined (ds ∷ more)) ∙ whole) in
      let wait = waits fd (map received cs) writes f f' _ _ w l h' (omega arith) in
      later-Handled fd (map received cs) (map received ds) (map (map received) more) writes f f' q w
        w' wait rest

  -- A message with a request type, shorter than 2 ^ 32 - 4 bytes, that comes in on a fresh
  -- connection over any number of wake-ups, the first read going past the header and every wake-up
  -- but the last leaving more than four bytes missing, is handled once, in the last wake-up, as the
  -- message that was serialized, if both buffers can be allocated and the handler gives an answer:
  -- the state is the handler's, the connection stays, and the only response of all wake-ups is the
  -- serialized answer followed by one zero byte.
  pub data_events-request :
      (fd : ℕ) (writes : List Write) (f : Flow) (p q : Payload) (w w' : World b)
      (type : RequestType) (h₀ h₁ h₂ h₃ x : ℕ) (start : Text) (cs : List Text)
      (more : List (List Text))
      → IsCodec codec
      → IsFresh f
      → le32 (h₀ ∷ h₁ ∷ h₂ ∷ h₃ ∷ []) ≡ length (codec.serialize p)
      → Arrives (length (codec.serialize p)) (length (x ∷ start)) (cs ∷ more)
      → length cs < num_read_try
      → (x ∷ start) ++ joined (cs ∷ more) ≡ codec.serialize p
      → length (codec.serialize p) + 4 < u32_mod
      → alloc (length (codec.serialize p)) ≡ true
      → p.requesttype ≡ some type
      → handle_request b type p w ≡ some (q, w')
      → alloc ((length (codec.serialize q) + 1) % u32_mod) ≡ true
      → (done : Done b) × (data_events fd
            ((received (h₀ ∷ h₁ ∷ h₂ ∷ h₃ ∷ x ∷ start) ∷ map received cs) ∷ map (map received) more)
            writes
            f
            w
          ≡ some (done, socket_write_data writes (codec.serialize q ++ (0 ∷ [])) ∷ []))
        × (done.gone ≡ false)
        × (done.world ≡ w')
        × (done.flow.payload ≡ q)
        × (done.unread ≡ [])
  unfolding data_events joined
  data_events-request fd writes f p q w w' type h₀ h₁ h₂ h₃ x start cs [] laws fresh header a few
        whole small room t e room' =
      let (f', l, h) =
        read_first fd f h₀ h₁ h₂ h₃ x start cs _ fresh header room a.0 few (omega arith) small in
      let all : (x ∷ start) ++ concat cs ≡ codec.serialize p =
        ap (λ s. (x ∷ start) ++ s) (sym (append-nil (concat cs))) ∙ whole in
      last-Handled fd _ writes f f' p q w w' type laws l
        (subst (λ s. Holds f' s (length (codec.serialize p))) all h) t e room'
  data_events-request fd writes f p q w w' type h₀ h₁ h₂ h₃ x start cs (ds ∷ more) laws fresh header
        a few whole small room t e room' =
      let size : length ((x ∷ start) ++ concat cs) ≡ length (x ∷ start) + length (concat cs) =
        length-append (x ∷ start) (concat cs) in
      let (f', l, h) =
        read_first fd f h₀ h₁ h₂ h₃ x start cs _ fresh header room a.0 few (omega arith) small in
      let rest =
        rest-Handled (ds ∷ more) fd writes f' ((x ∷ start) ++ concat cs) p q w w' type laws small t
          e room' h (subst (λ g. Arrives (length (codec.serialize p)) g (ds ∷ more)) (sym size) a.3)
          (append_assoc (x ∷ start) (concat cs) (joined (ds ∷ more)) ∙ whole) in
      later-Handled fd _ (map received ds) (map (map received) more) writes f f' q w w'
        (waits fd _ writes f f' _ _ w l h (omega arith)) rest
