-- ===== src/EventImpl.antt =====
-- util/include/EventImpl.h and util/src/EventImpl.cpp: the event loop of a thread over libevent,
-- which is a parameter. `none` is a call on a null event base, or the use of a freed context.
pub mod Signals
pub mod Contexts
pub mod Dispatch
pub mod Once
use remote_dict.Prelude.{
  ℕ, zero, suc, ◌+◌, ◌≡◌, Bool, true, false, Option, none, some, List, [], ◌∷◌, ◌++◌, ◌==◌,
  if◌then◌else◌, ◌>>=◌, length, ◌⊎◌,
}
use mathlib.Core.Option

-- What the class uses of libevent. The functions that change an event base give the changed one; a
-- time is in seconds and microseconds. `user_data` is what the event hands to its callback.
pub record LibEvent : Type 1 where
  pub Base : Type 0
  pub Event : Type 0
  pub event_base_new : Option Base
  pub event_assign : Base → ℕ → ℕ → Event
  pub evsignal_new : Base → ℕ → ℕ → Option Event
  pub user_data : Event → ℕ
  pub is_signal : Event → Bool
  pub event_add : Event → Option (ℕ × ℕ) → Base → Base
  pub event_del : Event → Base → Base
  pub event_free : Event → Base → Base
  pub event_base_loopexit : ℕ × ℕ → Base → Base
  pub pending : Base → Event → Bool

-- An event is pending once it is added, and no longer once it is deleted or freed.
pub record IsLibEvent (l : LibEvent) : Type 0 where
  pub pending-add :
      (e : l.Event) (t : Option (ℕ × ℕ)) (base : l.Base) → l.pending (l.event_add e t base) e ≡ true
  pub pending-del : (e : l.Event) (base : l.Base) → l.pending (l.event_del e base) e ≡ false
  pub pending-free : (e : l.Event) (base : l.Base) → l.pending (l.event_free e base) e ≡ false

-- An event of a signal is the one it was made as, a new base has no pending event, and no call on
-- one event makes another one pending.
pub record KeepsEvents (l : LibEvent) : Type 0 where
  pub evsignal_new-made :
      (base : l.Base) (signum a : ℕ) (e : l.Event)
      → l.evsignal_new base signum a ≡ some e
      → (l.user_data e ≡ a) × (l.is_signal e ≡ true)
  pub pending-new :
      (base : l.Base) (e : l.Event) → l.event_base_new ≡ some base → l.pending base e ≡ false
  pub pending-add_other :
      (e e' : l.Event) (t : Option (ℕ × ℕ)) (base : l.Base)
      → l.pending (l.event_add e t base) e' ≡ true
      → (e' ≡ e) ⊎ (l.pending base e' ≡ true)
  pub pending-del_other :
      (e e' : l.Event) (base : l.Base)
      → l.pending (l.event_del e base) e' ≡ true
      → l.pending base e' ≡ true
  pub pending-free_other :
      (e e' : l.Event) (base : l.Base)
      → l.pending (l.event_free e base) e' ≡ true
      → l.pending base e' ≡ true
  pub pending-loopexit :
      (e : l.Event) (t : ℕ × ℕ) (base : l.Base)
      → l.pending (l.event_base_loopexit t base) e ≡ l.pending base e

-- EV_READ|EV_PERSIST
abbrev pub read_persist : ℕ
read_persist = 18

-- A signal's callback and its cookie stand for themselves; a null callback is `none`.
pub record Context (l : LibEvent) : Type 0 where
  pub cbk : Option ℕ
  pub cookie : ℕ
  pub event : Option l.Event

-- A call of a signal's callback: the context that it was made for, the callback, the events and the
-- cookie.
pub record Call : Type 0 where
  pub context : ℕ
  pub cbk : ℕ
  pub events : ℕ
  pub cookie : ℕ

-- `contexts` are those on the heap by address, `called` the callbacks of signals that were called,
-- `freed` the bases that were freed.
pub record EventImpl (l : LibEvent) : Type 0 where
  pub pevbase : Option l.Base
  pub contexts : List (ℕ × Context l)
  pub fresh : ℕ
  pub called : List Call
  pub freed : List l.Base

module _ (l : LibEvent) where
  abbrev pub new_event_impl : EventImpl l
  new_event_impl = record { pevbase = none; contexts = []; fresh = 0; called = []; freed = [] }

  -- The destructor. The contexts stay on the heap.
  unfoldable pub delete_event_impl : EventImpl l → EventImpl l
  delete_event_impl s = elim s.pevbase [
    | some base ↦ record s { pevbase = none; freed = base ∷ s.freed }
    | none ↦ s
  ]

  unfoldable pub init_ev : EventImpl l → EventImpl l × Bool
  init_ev s = elim l.event_base_new [
    | some base ↦ (record s { pevbase = some base }, true)
    | none ↦ (record s { pevbase = none }, false)
  ]

  -- The event that `event_assign` makes of the caller's memory.
  unfoldable pub attach_fd_to_ev : ℕ → EventImpl l → Option l.Event
  attach_fd_to_ev fd s = do base ← s.pevbase; some (l.event_assign base fd read_persist)

  -- Both overloads: with a time, and without one.
  unfoldable pub add_to_ev : l.Event → Option (ℕ × ℕ) → EventImpl l → Option (EventImpl l)
  add_to_ev e t s = do base ← s.pevbase; some (record s { pevbase = some (l.event_add e t base) })

  -- `event_del` of an event of this base.
  unfoldable pub remove_from_ev : l.Event → EventImpl l → EventImpl l
  remove_from_ev e s = record s { pevbase = Option.map (l.event_del e) s.pevbase }

  unfoldable pub exit_loop : EventImpl l → Option (EventImpl l)
  exit_loop s = do
    base ← s.pevbase
    some (record s { pevbase = some (l.event_base_loopexit (2, 0) base) })

  -- `addSignal` behind `evsignal_new`. A context that no event refers to is not freed.
  unfoldable pub keep_context :
      Option ℕ → ℕ → Option l.Event → l.Base → EventImpl l → EventImpl l × Bool
  keep_context cbk cookie made base s =
      let s' = record s {
        contexts = (s.fresh, record { cbk = cbk; cookie = cookie; event = made }) ∷ s.contexts;
        fresh = s.fresh + 1;
      } in
      elim made [
        | some e ↦ (record s' { pevbase = some (l.event_add e none base) }, true)
        | none ↦ (s', false)
      ]

  unfoldable pub add_signal : ℕ → Option ℕ → ℕ → EventImpl l → Option (EventImpl l × Bool)
  unfolding keep_context
  add_signal signum cbk cookie s = do
    base ← s.pevbase
    some (keep_context cbk cookie (l.evsignal_new base signum s.fresh) base s)

  unfoldable pub find_context : ℕ → List (ℕ × Context l) → Option (Context l)
  find_context address [] = none
  find_context address ((a, ctx) ∷ rest) =
      let found = find_context address rest in if a == address then some ctx else found

  unfoldable pub drop_context : ℕ → List (ℕ × Context l) → List (ℕ × Context l)
  drop_context address [] = []
  drop_context address ((a, ctx) ∷ rest) =
      let others = drop_context address rest in if a == address then rest else (a, ctx) ∷ others

  -- The destructor of a context, and its memory.
  unfoldable pub delete_context : ℕ → Context l → EventImpl l → EventImpl l
  unfolding drop_context
  delete_context address ctx s = record s {
    contexts = drop_context address s.contexts;
    pevbase = elim ctx.event [ none ↦ s.pevbase | some e ↦ Option.map (l.event_free e) s.pevbase ];
  }

  -- `user_data` is the address of a context.
  unfoldable pub signal_cbk : ℕ → ℕ → EventImpl l → Option (EventImpl l)
  unfolding find_context delete_context
  signal_cbk events address s = do
    ctx ← find_context address s.contexts
    some (elim ctx.cbk [
      | none ↦ s
      | some f ↦ delete_context address ctx (record s {
        called =
            s.called
            ++ (record { context = address; cbk = f; events = events; cookie = ctx.cookie } ∷ []);
      })
    ])
