-- ===== src/Examples/Signals.antt =====
-- A libevent that lists its pending events, and two signals of which one has been delivered.
use remote_dict.Prelude.{
  ℕ, ◌+◌, ◌/◌, ◌%◌, ◌≤◌, ◌≡◌, refl, sym, ◌∙◌, ap, Bool, true, false, some, List, [], ◌∷◌, ◌==◌, ◌⊎◌,
  if◌then◌else◌, arith,
}
use mathlib.Core.Option.{some-injective}
use remote_dict.EventImpl.{
  LibEvent, IsLibEvent, KeepsEvents, EventImpl, init_ev, new_event_impl, add_signal, keep_context,
  signal_cbk, find_context, delete_context, drop_context,
}
use remote_dict.EventImpl.Contexts.{times}
use remote_dict.EventImpl.Dispatch.{Steps, here, next, adds_signal, delivers, Pends}
use remote_dict.EventImpl.Once.{signals_once}

pub is_listed : List ℕ → ℕ → Bool
is_listed [] e = false
is_listed (x ∷ xs) e = if x == e then true else is_listed xs e

pub delisted : ℕ → List ℕ → List ℕ
delisted e [] = []
delisted e (x ∷ xs) = let rest = delisted e xs in if x == e then rest else x ∷ rest

-- The event of a descriptor is even and that of a signal is odd.
abbrev pub listing : LibEvent
listing = record {
  Base = List ℕ;
  Event = ℕ;
  event_base_new = some [];
  event_assign = λ base fd flags. fd + fd;
  evsignal_new = λ base signum a. some (a + a + 1);
  user_data = λ e. e / 2;
  is_signal = λ e. e % 2 == 1;
  event_add = λ e t base. e ∷ base;
  event_del = delisted;
  event_free = delisted;
  event_base_loopexit = λ t base. base;
  pending = is_listed;
}

is_listed-delisted : (e : ℕ) (xs : List ℕ) → is_listed (delisted e xs) e ≡ false
unfolding is_listed delisted
is_listed-delisted e [] = refl
is_listed-delisted e (x ∷ xs) = ground (arith, is_listed-delisted e xs)

is_listed-head : (e : ℕ) (xs : List ℕ) → is_listed (e ∷ xs) e ≡ true
unfolding is_listed
is_listed-head e xs = ground arith

is_listed-delisted_other :
    (e j : ℕ) (xs : List ℕ) → is_listed (delisted e xs) j ≡ true → is_listed xs j ≡ true
unfolding is_listed delisted
is_listed-delisted_other e j [] h = h
is_listed-delisted_other e j (x ∷ xs) h = ground (arith, is_listed-delisted_other e j xs)

is_listed-cons :
    (e j : ℕ) (xs : List ℕ) → is_listed (e ∷ xs) j ≡ true → (j ≡ e) ⊎ (is_listed xs j ≡ true)
unfolding is_listed
is_listed-cons e j xs h = ground arith

listing-IsLibEvent : IsLibEvent listing
listing-IsLibEvent = record {
  pending-add = λ e t base. is_listed-head e base;
  pending-del = is_listed-delisted;
  pending-free = is_listed-delisted;
}

half : (a : ℕ) → ((a + a + 1) / 2 ≡ a) × (((a + a + 1) % 2 == 1) ≡ true)
half a = (omega arith, ground arith)

empty_base : (base : List ℕ) (e : ℕ) → some [] ≡ some base → is_listed base e ≡ false
unfolding is_listed
empty_base [] e h = refl
empty_base (x ∷ xs) e h = absurd (cc)

listing-KeepsEvents : KeepsEvents listing
listing-KeepsEvents = record {
  evsignal_new-made = λ base signum a e h.
      let same : a + a + 1 ≡ e = some-injective (a + a + 1) e h in
      (ap (λ x. x / 2) (sym same) ∙ (half a).0, ap (λ x. x % 2 == 1) (sym same) ∙ (half a).1);
  pending-new = empty_base;
  pending-add_other = λ e e' t base h. is_listed-cons e e' base h;
  pending-del_other = is_listed-delisted_other;
  pending-free_other = is_listed-delisted_other;
  pending-loopexit = λ e t base. refl;
}

-- Two signals, with their callbacks and cookies.
abbrev registered : EventImpl listing
registered = record {
  pevbase = some (3 ∷ 1 ∷ []);
  contexts =
      (1, record { cbk = some 9; cookie = 50; event = some 3 })
      ∷ (0, record { cbk = some 8; cookie = 40; event = some 1 })
      ∷ [];
  fresh = 2;
  called = [];
  freed = [];
}

abbrev first : EventImpl listing
first = record {
  pevbase = some (1 ∷ []);
  contexts = (0, record { cbk = some 8; cookie = 40; event = some 1 }) ∷ [];
  fresh = 1;
  called = [];
  freed = [];
}

-- The first has been delivered.
abbrev one_delivered : EventImpl listing
one_delivered = record {
  pevbase = some (3 ∷ []);
  contexts = (1, record { cbk = some 9; cookie = 50; event = some 3 }) ∷ [];
  fresh = 2;
  called = record { context = 0; cbk = 8; events = 16; cookie = 40 } ∷ [];
  freed = [];
}

delivery : Steps listing (init_ev listing (new_event_impl listing)).0 one_delivered
unfolding init_ev add_signal keep_context signal_cbk find_context delete_context drop_context
    is_listed delisted
delivery =
    next {t = registered}
      (next {t = first} (next here (adds_signal 15 40 (some 8) true refl))
        (adds_signal 2 50 (some 9) true refl))
      (delivers (3 ∷ 1 ∷ []) 1 16 refl refl refl refl)

signals_once_example :
    ((a : ℕ) → times a one_delivered.called ≤ 1)
    × ((e : ℕ) (events : ℕ)
        → (e % 2 == 1) ≡ true
        → Pends listing one_delivered e
        → (times (e / 2) one_delivered.called ≡ 0)
          × ((u : EventImpl listing) × (signal_cbk listing events (e / 2) one_delivered ≡ some u)))
signals_once_example =
    signals_once listing listing-IsLibEvent listing-KeepsEvents one_delivered delivery
