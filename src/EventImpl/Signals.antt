-- ===== src/EventImpl/Signals.antt =====
-- How often the callback of a signal runs (`addSignal` and `signalCbk` of
-- util/src/EventImpl.cpp).
use remote_dict.Prelude.{
  ℕ, ◌+◌, ◌≡◌, refl, true, Option, none, some, [], ◌∷◌, ◌++◌, ◌==◌, if◌then◌else◌, ◌>>=◌, arith,
}
use remote_dict.EventImpl.{
  LibEvent, IsLibEvent, EventImpl, keep_context, add_signal, find_context, drop_context,
  delete_context, signal_cbk,
}

eq_self : (n : ℕ) → (n == n) ≡ true
eq_self n = ground arith

module _ (l : LibEvent) where
  -- The event loop calls back for an event of a signal only while it is pending.
  unfoldable pub deliver : l.Event → ℕ → ℕ → EventImpl l → Option (EventImpl l)
  deliver e address events s = do
    base ← s.pevbase
    if l.pending base e then signal_cbk l events address s else some s

  -- A registered callback runs at the first delivery of its signal with its cookie; the event, made
  -- to be persistent, and the context are freed by it, so that the second delivery does nothing.
  signal_cbk_once :
      (signum f cookie ev ev' : ℕ) (s : EventImpl l) (base : l.Base) (e : l.Event)
      → IsLibEvent l
      → s.pevbase ≡ some base
      → l.evsignal_new base signum s.fresh ≡ some e
      → (s₁ s₂ : EventImpl l) × (add_signal l signum (some f) cookie s ≡ some (s₁, true))
        × (deliver e s.fresh ev s₁ ≡ some s₂)
        × (deliver e s.fresh ev' s₂ ≡ some s₂)
        × (s₂.called
            ≡ s.called
              ++ (record { context = s.fresh; cbk = f; events = ev; cookie = cookie } ∷ []))
        × (s₂.contexts ≡ s.contexts)
  unfolding deliver add_signal keep_context signal_cbk find_context drop_context delete_context
  signal_cbk_once signum f cookie ev ev' s base e laws based made =
      let added : l.Base = l.event_add e none base in
      let s₁ : EventImpl l = record s {
        pevbase = some added;
        contexts = (s.fresh, record { cbk = some f; cookie = cookie; event = some e }) ∷ s.contexts;
        fresh = s.fresh + 1;
      } in
      let s₂ : EventImpl l = record s₁ {
        pevbase = some (l.event_free e added);
        contexts = s.contexts;
        called =
            s.called ++ (record { context = s.fresh; cbk = f; events = ev; cookie = cookie } ∷ []);
      } in
      (
        s₁,
        s₂,
        rw (based, made) refl,
        rw (laws.pending-add e none base, eq_self s.fresh)
            (rw (delete_context, drop_context, eq_self s.fresh) refl),
        rw (laws.pending-free e added) refl,
        refl,
        refl,
      )
