-- ===== src/TcpFlow/Concurrent/Order.antt =====
-- Requests in the order in which they take effect, against the ideal server of TcpFlow/Ideal.
use remote_dict.Prelude.{ℕ, ◌+◌, ◌≤◌, ◌<◌, ◌≡◌, List, [], ◌∷◌}
use remote_dict.Dictionary.{max_dict_size}
use remote_dict.Dictionary.History.{update}
use remote_dict.Payload.{text_of}
use remote_dict.TcpFlow.Ideal.{Ideal, grown, reply_get}
use remote_dict.TcpFlow.Concurrent.{Entry, stored, refused, got}

-- The state after an entry, and after all of them.
unfoldable pub after : Entry → Ideal → Ideal
unfolding reply_get
after (stored p) s = record s {
  store = update (text_of p.key) (text_of p.value) s.store;
  keys = grown (s.store (text_of p.key)) s.keys;
}
after (refused p) s = s
after (got p q) s = (reply_get (s.store (text_of p.key)) p s).1

unfoldable pub replay : List Entry → Ideal → Ideal
unfolding after
replay [] s = s
replay (e ∷ es) s = replay es (after e s)

-- Every GET is answered as the ideal server answers it in this order; a SET is refused only where
-- the limit is reached, and is written where the keys are less than `n` above it.
abbrev pub Agrees : ℕ → Entry → Ideal → Type 0
Agrees n (stored p) s = s.keys < max_dict_size + n
Agrees n (refused p) s = max_dict_size ≤ s.keys
Agrees n (got p q) s = q ≡ (reply_get (s.store (text_of p.key)) p s).0

abbrev pub IsLinear : ℕ → List Entry → Ideal → Type 0
IsLinear n [] s = Unit
IsLinear n (e ∷ es) s = Agrees n e s × IsLinear n es (after e s)
