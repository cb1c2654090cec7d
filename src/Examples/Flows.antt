-- ===== src/Examples/Flows.antt =====
-- The theorems of the flow at one request: a GET of a stored key, in two reads.
use remote_dict.Prelude.{
  ◌-◌, ◌≡◌, refl, none, some, List, [], ◌∷◌, ◌++◌, replicate, arith, ◌>>=◌, pos,
}
use remote_dict.Text.{bytes, text_eq}
use remote_dict.UnorderedMap.{find}
use remote_dict.Payload.{Payload, RequestType, empty}
use remote_dict.Stats.{Stats, incr_get_req, incr_get_req_succ, incr_get_req_fail}
use remote_dict.Examples.{
  exact, exact-NoFalseNegatives, roomy, plain_codec, serialize_payload, write_payload, write_text,
  write_stats, type_code,
}
use remote_dict.Examples.Store.{one, one-IsValid, filtered, filtered-IsValid}
use remote_dict.TcpFlow.Buffer.{Read, received, Flow, new_flow, receive, finished, le32, eagain}
use remote_dict.TcpFlow.Write.{Write, accepts, refused, returned, socket_write_data}
use remote_dict.TcpFlow.Requests.{World, handle_request}
use remote_dict.TcpFlow.Callback.{after_reads, parse, message_bytes}
use remote_dict.TcpFlow.Reassembly.{Holds, concat}
use remote_dict.TcpFlow.Messages.{Delivery}
use remote_dict.TcpFlow.Faults.{receive-overflow, header_alone, after_reads_early}
use remote_dict.TcpFlow.Responses.{
  Means, socket_write_data-Means, capacity, socket_write_data_total,
}
use remote_dict.TcpFlow.Semantics.{IsSound, handle_request-IsSound, handle_request-stored}

abbrev pub counters : Stats
counters = record { num_get_req = 3; num_get_req_succ = 2; num_get_req_fail = 1 }

abbrev pub world : World exact
world = record { dictionary = one; stats = counters }

abbrev filtered_world : World exact
filtered_world = record { dictionary = filtered; stats = counters }

pub world-IsSound : IsSound exact exact-NoFalseNegatives world
world-IsSound = record { valid = one-IsValid; balanced = refl }

filtered_world-IsSound : IsSound exact exact-NoFalseNegatives filtered_world
filtered_world-IsSound = record { valid = filtered-IsValid; balanced = refl }

abbrev pub get_key : Payload
get_key = record empty { requesttype = some RequestType.get; key = some (bytes "key") }

abbrev set_b : Payload
set_b = record empty {
  requesttype = some RequestType.set;
  key = some (bytes "b");
  value = some (bytes "2");
}

abbrev get_b : Payload
get_b = record empty { requesttype = some RequestType.get; key = some (bytes "b") }

abbrev pub get_answer : Payload
get_answer = record get_key { value = some (bytes "value") }

abbrev pub world_after : World exact
world_after = record world { stats = incr_get_req_succ (incr_get_req counters) }

handle_request-IsSound_example :
    (q : Payload) × (w : World exact) × (handle_request exact RequestType.get get_key world
      ≡ some (q, w))
    × IsSound exact exact-NoFalseNegatives w
handle_request-IsSound_example =
    handle_request-IsSound exact exact-NoFalseNegatives RequestType.get get_key world world-IsSound

handle_request-stored_example :
    handle_request exact RequestType.get get_key filtered_world
    ≡ some (
      record get_key { reason = some (bytes "value") },
      record filtered_world { stats = incr_get_req_fail (incr_get_req counters) },
    )
unfolding find text_eq
handle_request-stored_example =
    handle_request-stored exact exact-NoFalseNegatives get_key filtered_world (bytes "value")
      filtered_world-IsSound refl

-- The message has eight bytes: the type, the key behind its length, and three absent fields.
abbrev pub reads : List Read
reads = received (8 ∷ 0 ∷ 0 ∷ 0 ∷ 0 ∷ 4 ∷ []) ∷ received (107 ∷ 101 ∷ 121 ∷ 0 ∷ 0 ∷ 0 ∷ []) ∷ []

pub get_key-Delivery : Delivery (plain_codec.serialize get_key) reads
unfolding serialize_payload write_payload write_text write_stats type_code le32 concat
get_key-Delivery = record {
  a = 8;
  b = 0;
  c = 0;
  d = 0;
  x = 0;
  start = 4 ∷ [];
  chunks = (107 ∷ 101 ∷ 121 ∷ 0 ∷ 0 ∷ 0 ∷ []) ∷ [];
  header = refl;
  whole = refl;
  nonempty = (omega arith, tt);
  enough = omega arith;
  as_reads = refl;
}

pub get_key-handled :
    handle_request exact RequestType.get get_key world ≡ some (get_answer, world_after)
unfolding find text_eq
get_key-handled =
    handle_request-stored exact exact-NoFalseNegatives get_key world (bytes "value") world-IsSound
      refl

abbrev script : List Write
script = accepts 2 ∷ refused eagain ∷ accepts 5 ∷ []

socket_write_data-Means_example : Means [] (bytes "abc") (socket_write_data script (bytes "abc"))
socket_write_data-Means_example = socket_write_data-Means script (bytes "abc")

socket_write_data_total_example :
    socket_write_data script (bytes "abc") ≡ returned (some (pos 3)) (bytes "abc")
unfolding capacity
socket_write_data_total_example =
    socket_write_data_total script (bytes "abc") (refl, tt) (omega arith)

-- A flow that has two of the four bytes of its message.
abbrev half : Flow
half = record (new_flow (bytes "a")) {
  buffer = some (1 ∷ 2 ∷ 0 ∷ 0 ∷ []);
  payload_len = 4;
  len_till_now = 6;
  currlen = some 2;
}

half-Holds : Holds half (1 ∷ 2 ∷ []) 4
half-Holds = record { filled = refl; offset = refl; announced = refl; counted = refl }

receive-overflow_example : receive roomy (3 ∷ 4 ∷ 5 ∷ []) half ≡ none
receive-overflow_example =
    receive-overflow roomy half (1 ∷ 2 ∷ []) (3 ∷ 4 ∷ 5 ∷ []) 4 half-Holds (omega arith)
      (omega arith)

header_alone_example :
    (receive roomy (1 ∷ 0 ∷ 0 ∷ 0 ∷ []) (new_flow (bytes "a")) >>= receive roomy (5 ∷ [])) ≡ none
header_alone_example =
    header_alone roomy (new_flow (bytes "a")) 1 0 0 0 (5 ∷ [])
      (record { null = refl; nothing = refl }) refl refl

after_reads_early_example :
    (after_reads exact plain_codec roomy [] world (finished half [])
      ≡ (parse exact plain_codec roomy [] half world >>= λ d. some (record d { unread = [] })))
    × (message_bytes exact plain_codec roomy half ≡ some ((1 ∷ 2 ∷ []) ++ replicate (4 - 2) 0))
after_reads_early_example =
    after_reads_early exact plain_codec roomy [] world half (1 ∷ 2 ∷ []) 4 [] half-Holds
      (omega arith)
