-- ===== src/TcpFlow/Concurrent.antt =====
-- The handlers of GET and SET (server/src/TcpFlow.cpp) in several worker threads at once, with the
-- dictionary and the counters that they share: one step for each section under a lock, and for the
-- test of the size, which `Dictionary::set` makes before it takes the lock.
pub mod Counting
pub mod Order
pub mod Holds
pub mod Linear
pub mod Covered
pub mod Finish
pub mod Filtered
use remote_dict.Prelude.{
  ℕ, ◌≡◌, Bool, true, false, Option, some, List, [], ◌∷◌, get_elem?, set_elem, if◌then◌else◌,
}
use remote_dict.Text.{Text, bytes}
use remote_dict.BloomFilter.{BloomFilter}
use remote_dict.Dictionary
use remote_dict.Dictionary.{Dictionary, set_locked, is_full}
use remote_dict.Stats.{Stats, incr_get_req, incr_get_req_succ, incr_get_req_fail}
use remote_dict.Payload.{Payload, text_of}
use remote_dict.TcpFlow.Requests.{World}

-- Where a thread stands: in no handler, in `set` behind the test of the size, in
-- `handleGetRequest` behind its count, and behind the `get` there with what that has given.
pub data Progress : Type 0 where
  idle : Progress
  setting : Payload → Progress
  getting : Payload → Progress
  counting : Payload → Bool × Text → Progress

-- A request at the time at which it takes effect: a SET that writes or is refused, and a GET with
-- its answer.
pub data Entry : Type 0 where
  stored : Payload → Entry
  refused : Payload → Entry
  got : Payload → Payload → Entry

-- The answer of `handleGetRequest`, from what `get` gives.
unfoldable pub get_answer : Payload → Bool × Text → Payload
get_answer p r = if r.0 then record p { value = some r.1 } else record p { reason = some r.1 }

-- The outcome that it counts.
unfoldable pub count_outcome : Bool → Stats → Stats
unfolding incr_get_req_succ incr_get_req_fail
count_outcome hit stats = if hit then incr_get_req_succ stats else incr_get_req_fail stats

module _ (b : BloomFilter) where
  pub record Shared : Type 0 where
    pub world : World b
    pub threads : List Progress

  -- Thread `i` goes on, and the shared state is changed.
  abbrev pub moves : ℕ → Progress → World b → Shared → Shared
  moves i p w s = record { world = w; threads = set_elem s.threads i p }

  -- The steps from `s` to `t`, with the requests in the order in which they take effect.
  pub data Run (t : Shared) : Shared → List Entry → Type 0 where
    stop : Run t t []
    passes :
        {s : Shared} {es : List Entry} (i : ℕ) (p : Payload)
        → get_elem? s.threads i ≡ some idle
        → is_full b s.world.dictionary ≡ false
        → Run t (moves i (setting p) s.world s) es
        → Run t s es
    refuses :
        {s : Shared} {es : List Entry} (i : ℕ) (p : Payload)
        → get_elem? s.threads i ≡ some idle
        → is_full b s.world.dictionary ≡ true
        → Run t s es
        → Run t s (refused p ∷ es)
    writes :
        {s : Shared} {es : List Entry} (i : ℕ) (p : Payload) (d : Dictionary b)
        → get_elem? s.threads i ≡ some (setting p)
        → set_locked b (text_of p.key) (text_of p.value) s.world.dictionary ≡ some d
        → Run t (moves i idle (record s.world { dictionary = d }) s) es
        → Run t s (stored p ∷ es)
    counts :
        {s : Shared} {es : List Entry} (i : ℕ) (p : Payload)
        → get_elem? s.threads i ≡ some idle
        → Run t (moves i (getting p) (record s.world { stats = incr_get_req s.world.stats }) s) es
        → Run t s es
    gets :
        {s : Shared} {es : List Entry} (i : ℕ) (p : Payload) (r : Bool × Text)
        → get_elem? s.threads i ≡ some (getting p)
        → Dictionary.get b (text_of p.key) [] s.world.dictionary ≡ some r
        → Run t (moves i (counting p r) s.world s) es
        → Run t s (got p (get_answer p r) ∷ es)
    ends :
        {s : Shared} {es : List Entry} (i : ℕ) (p : Payload) (r : Bool × Text)
        → get_elem? s.threads i ≡ some (counting p r)
        → Run t (moves i idle (record s.world { stats = count_outcome r.0 s.world.stats }) s) es
        → Run t s es
