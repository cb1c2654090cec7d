-- ===== src/Stats/Concurrent.antt =====
-- The counters of server/src/Stats.cpp under the GET requests of several threads at once
-- (`TcpFlow::handleGetRequest` of server/src/TcpFlow.cpp): each increment has the lock for itself.
use remote_dict.Prelude.{ℕ, ◌+◌, ◌%◌, ◌<◌, ◌≤◌, ◌≡◌, arith, u64_mod}
use remote_dict.Stats.{Stats, incr_get_req, incr_get_req_succ, incr_get_req_fail}

-- The counters, and how many threads have counted a request but not its outcome.
pub record Shared : Type 0 where
  pub stats : Stats
  pub in_flight : ℕ

-- A thread of `n` counts a request, or one that has done so counts its outcome.
pub data Step (n : ℕ) (s t : Shared) : Type 0 where
  begins :
      s.in_flight < n
      → t ≡ record { stats = incr_get_req s.stats; in_flight = s.in_flight + 1 }
      → Step n s t
  succeeds :
      (others : ℕ)
      → s.in_flight ≡ others + 1
      → t ≡ record { stats = incr_get_req_succ s.stats; in_flight = others }
      → Step n s t
  fails :
      (others : ℕ)
      → s.in_flight ≡ others + 1
      → t ≡ record { stats = incr_get_req_fail s.stats; in_flight = others }
      → Step n s t

pub data Steps (n : ℕ) (s : Shared) : Shared → Type 0 where
  here : Steps n s s
  next : {t u : Shared} → Steps n s t → Step n t u → Steps n s u

-- The requests are those with an outcome and those without one yet.
abbrev IsCounted : ℕ → Shared → Type 0
IsCounted n s =
    (s.stats.num_get_req
      ≡ (s.stats.num_get_req_succ + s.stats.num_get_req_fail + s.in_flight) % u64_mod)
    × (s.in_flight ≤ n)

Step-IsCounted : (n : ℕ) (s t : Shared) → Step n s t → IsCounted n s → IsCounted n t
unfolding incr_get_req incr_get_req_succ incr_get_req_fail
Step-IsCounted n s t (begins few e) h = rw e (omega arith, omega arith)
Step-IsCounted n s t (succeeds others m e) h = rw e (omega arith, omega arith)
Step-IsCounted n s t (fails others m e) h = rw e (omega arith, omega arith)

-- From counters in which every request has its outcome, however the increments of `n` threads
-- interleave, the counted requests are the successes, the failures and the requests that are still
-- without an outcome, modulo 2 ^ 64, and of the last there are at most `n`.
Steps-counted :
    (n : ℕ) (stats : Stats) (t : Shared)
    → stats.num_get_req ≡ (stats.num_get_req_succ + stats.num_get_req_fail) % u64_mod
    → Steps n (record { stats = stats; in_flight = 0 }) t
    → (t.stats.num_get_req
        ≡ (t.stats.num_get_req_succ + t.stats.num_get_req_fail + t.in_flight) % u64_mod)
      × (t.in_flight ≤ n)
Steps-counted n stats t balanced steps = all t steps
  where
    all : (u : Shared) → Steps n (record { stats = stats; in_flight = 0 }) u → IsCounted n u
    all u here = (omega arith, omega arith)
    all u (next {t = v} before st) = Step-IsCounted n v u st (all v before)
