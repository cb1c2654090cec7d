-- ===== src/Examples/Interleaved.antt =====
-- A GET in one thread around a SET of its key in another, without the filter and with it.
use remote_dict.Prelude.{
  ◌≡◌, ◌+◌, ◌%◌, ◌++◌, refl, true, false, some, List, [], ◌∷◌, replicate, arith, u64_mod,
}
use remote_dict.Text.{bytes, text_eq}
use remote_dict.UnorderedMap.{find, assign}
use remote_dict.Dictionary
use remote_dict.Dictionary.{
  Dictionary, is_full, set_locked, get, get_plain, get_filtered, note_key, not_found,
}
use remote_dict.Dictionary.Refinement.{view, IsValid}
use remote_dict.Stats
use remote_dict.Stats.{Stats, incr_get_req, incr_get_req_succ}
use remote_dict.Payload.{Payload, RequestType, empty}
use remote_dict.TcpFlow.Requests.{World, handle_request}
use remote_dict.TcpFlow.Ideal.{nothing, reply, Represents, new-Represents, handle_request-reply}
use remote_dict.TcpFlow.Concurrent.{
  idle, setting, getting, counting, Entry, stored, got, get_answer, Shared, Run, stop, passes,
  writes, counts, gets,
}
use remote_dict.TcpFlow.Concurrent.Counting.{sum_of, is_miss}
use remote_dict.TcpFlow.Concurrent.Finish.{handlers_finish}
use remote_dict.TcpFlow.Concurrent.Filtered.{AllFail, contents, gots, handlers_filtered}
use remote_dict.TcpFlow.Concurrent.Order.{IsLinear, replay}
use remote_dict.TcpFlow.Concurrent.Holds.{Holds}
use remote_dict.TcpFlow.Concurrent.Linear.{handlers-IsLinear}
use remote_dict.Examples.{exact, exact-NoFalseNegatives, member}

abbrev get_a : Payload
get_a = record empty { requesttype = some RequestType.get; key = some (bytes "a") }

abbrev set_a : Payload
set_a = record empty {
  requesttype = some RequestType.set;
  key = some (bytes "a");
  value = some (bytes "7");
}

abbrev empty_world : World exact
empty_world = record { dictionary = Dictionary.init exact; stats = Stats.init }

abbrev with_a : Dictionary exact
with_a = record (Dictionary.init exact) { dict = (bytes "a", bytes "7") ∷ [] }

abbrev last : Shared exact
last = record {
  world = record { dictionary = with_a; stats = incr_get_req Stats.init };
  threads = counting get_a (true, bytes "7") ∷ idle ∷ [];
}

abbrev entries : List Entry
entries = stored set_a ∷ got get_a (get_answer get_a (true, bytes "7")) ∷ []

interleaved : Run exact last (record { world = empty_world; threads = replicate 2 idle }) entries
unfolding is_full set_locked assign get find text_eq
interleaved = counts 0 get_a refl (
    passes 1 set_a refl refl
      (writes 1 set_a with_a refl refl (gets 0 get_a (true, bytes "7") refl refl stop)))

handlers-IsLinear_example : IsLinear 2 entries nothing × Holds exact 2 last (replay entries nothing)
handlers-IsLinear_example =
    handlers-IsLinear exact 2 empty_world nothing last entries (omega arith) (new-Represents exact)
      interleaved

handle_request-reply_example :
    (w : World exact) × (handle_request exact RequestType.set set_a empty_world
      ≡ some ((reply RequestType.set set_a nothing).0, w))
    × Represents exact w (reply RequestType.set set_a nothing).1
handle_request-reply_example =
    handle_request-reply exact exact-NoFalseNegatives RequestType.set set_a empty_world nothing
      (new-Represents exact)

-- A server with the filter, whose keys are none yet.
abbrev filtered_world : World exact
filtered_world = record {
  dictionary = record (Dictionary.init exact) {
    bloom_filter_enabled = true;
    bloom_filter = some [];
  };
  stats = Stats.init;
}

filtered_world-IsValid : IsValid exact filtered_world.dictionary
unfolding find
filtered_world-IsValid = record {
  bounded = omega arith;
  distinct = tt;
  covered = λ on. ([], record { present = refl; knows = λ k v h. absurd (cc) });
}

-- Both handlers on their way.
abbrev halfway : Shared exact
halfway = record {
  world = record filtered_world { stats = incr_get_req Stats.init };
  threads = getting get_a ∷ setting set_a ∷ [];
}

to_halfway : Run exact halfway (record { world = filtered_world; threads = replicate 2 idle }) []
unfolding is_full
to_halfway = counts 0 get_a refl (passes 1 set_a refl refl stop)

handlers_finish_example :
    (u : Shared exact) × (es : List Entry) × Run exact u
      (record { world = filtered_world; threads = replicate 2 idle })
      ([] ++ es)
    × (u.threads ≡ replicate 2 idle)
handlers_finish_example =
    handlers_finish exact exact-NoFalseNegatives 2 filtered_world halfway [] filtered_world-IsValid
      to_halfway

abbrev noted : Dictionary exact
noted = record with_a { bloom_filter_enabled = true; bloom_filter = some (bytes "a" ∷ []) }

abbrev filtered_last : Shared exact
filtered_last = record {
  world = record { dictionary = noted; stats = incr_get_req Stats.init };
  threads = counting get_a (false, bytes "7") ∷ idle ∷ [];
}

abbrev filtered_entries : List Entry
filtered_entries = stored set_a ∷ got get_a (get_answer get_a (false, bytes "7")) ∷ []

filtered_run :
    Run exact filtered_last
      (record { world = filtered_world; threads = replicate 2 idle })
      filtered_entries
unfolding is_full set_locked assign get find text_eq member
filtered_run = counts 0 get_a refl (
    passes 1 set_a refl refl
      (writes 1 set_a noted refl refl (gets 0 get_a (false, bytes "7") refl refl stop)))

handlers_filtered_example :
    AllFail filtered_entries (view filtered_world.dictionary)
    × (view noted ≡ contents filtered_entries (view filtered_world.dictionary))
    × (filtered_last.world.stats.num_get_req_succ ≡ 0)
    × ((filtered_last.world.stats.num_get_req_fail + sum_of is_miss filtered_last.threads) % u64_mod
        ≡ (filtered_world.stats.num_get_req_fail + gots filtered_entries) % u64_mod)
handlers_filtered_example =
    handlers_filtered exact exact-NoFalseNegatives 2 filtered_world filtered_last filtered_entries
      filtered_world-IsValid refl filtered_run
