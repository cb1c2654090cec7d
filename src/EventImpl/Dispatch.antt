-- ===== src/EventImpl/Dispatch.antt =====
-- The event loop (`dispatchEvloop` of util/src/EventImpl.cpp), which calls back for the signals that
-- are pending, between the other operations of the class, which its callbacks call.
use mathlib.Core.Option.{some-injective}
use mathlib.Core.Bool.{true≢false}
use remote_dict.Prelude.{
  ℕ, ◌≡◌, ◌≢◌, ◌∙◌, refl, sym, ap, subst, Bool, true, false, Option, none, some, List, [], ◌∷◌,
  ◌++◌,
}
use remote_dict.EventImpl.{
  LibEvent, IsLibEvent, KeepsEvents, Context, EventImpl, add_to_ev, remove_from_ev, exit_loop,
  add_signal, find_context, delete_context, signal_cbk, delete_event_impl,
}
use remote_dict.EventImpl.Contexts.{
  Descends, drop-Descends, find-drop_other, AtMostOnce, once-append,
}

module _ (l : LibEvent) where
  -- A step while the loop runs, or before it: the delivery of a pending signal, or an operation
  -- that a callback or the thread calls. The events of descriptors are not those of signals.
  pub data Step (s t : EventImpl l) : Type 0 where
    delivers :
        (base : l.Base) (e : l.Event) (events : ℕ)
        → s.pevbase ≡ some base
        → l.is_signal e ≡ true
        → l.pending base e ≡ true
        → signal_cbk l events (l.user_data e) s ≡ some t
        → Step s t
    adds_signal :
        (signum cookie : ℕ) (cbk : Option ℕ) (ok : Bool)
        → add_signal l signum cbk cookie s ≡ some (t, ok)
        → Step s t
    adds :
        (e : l.Event) (time : Option (ℕ × ℕ))
        → l.is_signal e ≡ false
        → add_to_ev l e time s ≡ some t
        → Step s t
    removes : (e : l.Event) → l.is_signal e ≡ false → t ≡ remove_from_ev l e s → Step s t
    exits : exit_loop l s ≡ some t → Step s t
    deletes : t ≡ delete_event_impl l s → Step s t

  pub data Steps (s : EventImpl l) : EventImpl l → Type 0 where
    here : Steps s s
    next : {t u : EventImpl l} → Steps s t → Step t u → Steps s u

  -- The event is pending in the base of `s`.
  abbrev pub Pends : EventImpl l → l.Event → Type 0
  Pends s e = (base : l.Base) × (s.pevbase ≡ some base) × (l.pending base e ≡ true)

  -- A pending signal has its context, and a context that was called for is gone.
  pub record IsKept (s : EventImpl l) : Type 0 where
    pub known :
        (e : l.Event)
        → l.is_signal e ≡ true
        → Pends s e
        → (ctx : Context l) × (find_context l (l.user_data e) s.contexts ≡ some ctx)
          × (ctx.event ≡ some e)
    pub descends : Descends l s.fresh s.contexts
    pub once : (a : ℕ) → AtMostOnce l a s.fresh s.called s.contexts

  -- Only the base changes, and no signal becomes pending.
  pub base_becomes :
      (s : EventImpl l) (base base' : l.Base)
      → IsKept s
      → s.pevbase ≡ some base
      → ((e : l.Event) → l.is_signal e ≡ true → l.pending base' e ≡ true → l.pending base e ≡ true)
      → IsKept (record s { pevbase = some base' })
  base_becomes s base base' v based back = record {
    known = λ e sig (base₁, same, pends). v.known e sig (
      base,
      based,
      back e sig (subst (λ x. l.pending x e ≡ true) (sym (some-injective base' base₁ same)) pends),
    );
    descends = v.descends;
    once = v.once;
  }

  -- Nothing is pending where there is no base.
  pub no_base :
      (s : EventImpl l) (freed : List l.Base)
      → IsKept s
      → IsKept (record s { pevbase = none; freed = freed })
  no_base s freed v = record {
    known = λ e sig (base, same, pends). absurd (cc);
    descends = v.descends;
    once = v.once;
  }

  module _ (laws : IsLibEvent l) (keeps : KeepsEvents l) where
    abbrev pub after_call : EventImpl l → l.Event → Context l → ℕ → ℕ → EventImpl l
    after_call s e ctx events f = delete_context l (l.user_data e) ctx (record s {
      called =
          s.called
          ++ (record { context = l.user_data e; cbk = f; events = events; cookie = ctx.cookie }
              ∷ []);
    })

    -- The event of the context is freed, so that no pending event refers to it.
    freed-known :
        (s : EventImpl l) (base base' : l.Base) (e e' : l.Event) (ctx : Context l) (events f : ℕ)
        → IsKept s
        → s.pevbase ≡ some base
        → find_context l (l.user_data e) s.contexts ≡ some ctx
        → ctx.event ≡ some e
        → l.is_signal e' ≡ true
        → (after_call s e ctx events f).pevbase ≡ some base'
        → l.pending base' e' ≡ true
        → (l.pending base e' ≡ true) × (l.user_data e' ≢ l.user_data e)
    unfolding delete_context
    freed-known s base base' e e' ctx events f v based found made sig same pends =
        let freed : (after_call s e ctx events f).pevbase ≡ some (l.event_free e base) =
          rw (made, based) refl in
        let of_base : base' ≡ l.event_free e base =
          some-injective base' (l.event_free e base) (sym same ∙ freed) in
        let pends' : l.pending (l.event_free e base) e' ≡ true =
          subst (λ x. l.pending x e' ≡ true) of_base pends in
        let was : l.pending base e' ≡ true = keeps.pending-free_other e e' base pends' in
        (
          was,
          λ one.
              let (ctx', found', made') = v.known e' sig (base, based, was) in
              let same_ctx : ctx' ≡ ctx =
                some-injective ctx' ctx
                  (sym found' ∙ (ap (λ j. find_context l j s.contexts) one ∙ found)) in
              let same_event : e' ≡ e =
                some-injective e' e
                  (sym made' ∙ (ap (λ (c : Context l). c.event) same_ctx ∙ made)) in
              true≢false (
                sym pends'
                ∙ (ap (l.pending (l.event_free e base)) same_event ∙ laws.pending-free e base)),
        )

    pub called-IsKept :
        (s : EventImpl l) (base : l.Base) (e : l.Event) (ctx : Context l) (events f : ℕ)
        → IsKept s
        → s.pevbase ≡ some base
        → find_context l (l.user_data e) s.contexts ≡ some ctx
        → ctx.event ≡ some e
        → IsKept (after_call s e ctx events f)
    unfolding delete_context
    called-IsKept s base e ctx events f v based found made =
        let a : ℕ = l.user_data e in
        record {
          known = λ e' sig (base', same, pends).
              let (was, gone) =
                freed-known s base base' e e' ctx events f v based found made sig same pends in
              let (ctx', found', made') = v.known e' sig (base, based, was) in
              (ctx', find-drop_other l a (l.user_data e') s.contexts gone ∙ found', made');
          descends = drop-Descends l a s.fresh s.contexts v.descends;
          once = λ j.
              once-append l j s.fresh
                (record { context = a; cbk = f; events = events; cookie = ctx.cookie }) s.called
                s.contexts ctx v.descends found (v.once a) (v.once j);
        }
