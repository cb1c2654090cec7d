-- ===== src/EventImpl/Once.antt =====
-- How often the callbacks of signals run, however the loop and the operations of util/src/EventImpl.cpp
-- alternate.
use mathlib.Core.Bool.{true≢false}
use mathlib.Core.Option.{some-injective}
use remote_dict.Prelude.{
  ℕ, ◌≤◌, ◌≡◌, ◌∙◌, refl, sym, ap, subst, Bool, true, false, Option, none, some, ◌∷◌, inl, inr,
  Option-cases, arith,
}
use remote_dict.EventImpl.{
  LibEvent, IsLibEvent, KeepsEvents, Context, EventImpl, new_event_impl, init_ev, add_to_ev,
  remove_from_ev, exit_loop, add_signal, keep_context, find_context, signal_cbk, delete_event_impl,
}
use remote_dict.EventImpl.Contexts.{times, find-cons, find-cons_other, once-cons}
use remote_dict.EventImpl.Dispatch.{
  Step, delivers, adds_signal, adds, removes, exits, deletes, Steps, here, next, Pends, IsKept,
  base_becomes, no_base, after_call, called-IsKept,
}

module _ (l : LibEvent) (laws : IsLibEvent l) (keeps : KeepsEvents l) where
  -- What the callback of libevent does for a context that is there.
  signal_cbk_lem :
      (s : EventImpl l) (e : l.Event) (ctx : Context l) (events : ℕ) (o : Option ℕ)
      → find_context l (l.user_data e) s.contexts ≡ some ctx
      → ctx.cbk ≡ o
      → signal_cbk l events (l.user_data e) s
        ≡ elim o [ none ↦ some s | some f ↦ some (after_call l laws keeps s e ctx events f) ]
  unfolding signal_cbk
  signal_cbk_lem s e ctx events none found has = rw (found, has) refl
  signal_cbk_lem s e ctx events (some f) found has = rw (found, has) refl

  -- It returns, since the context of a pending signal is there.
  delivered :
      (s : EventImpl l) (base : l.Base) (e : l.Event) (events : ℕ)
      → IsKept l s
      → s.pevbase ≡ some base
      → l.is_signal e ≡ true
      → l.pending base e ≡ true
      → (t : EventImpl l) × (signal_cbk l events (l.user_data e) s ≡ some t) × IsKept l t
  delivered s base e events v based sig pends =
      let (ctx, found, made) = v.known e sig (base, based, pends) in
      elim (Option-cases ctx.cbk) [
        | inl has ↦ (s, signal_cbk_lem s e ctx events none found has, v)
        | inr (f, has) ↦ (
          after_call l laws keeps s e ctx events f,
          signal_cbk_lem s e ctx events (some f) found has,
          called-IsKept l laws keeps s base e ctx events f v based found made,
        )
      ]

  -- A new context has an address of its own.
  context-IsKept :
      (s : EventImpl l) (signum cookie : ℕ) (base : l.Base) (cbk : Option ℕ) (o : Option l.Event)
      → IsKept l s
      → s.pevbase ≡ some base
      → l.evsignal_new base signum s.fresh ≡ o
      → IsKept l (keep_context l cbk cookie o base s).0
  unfolding keep_context
  context-IsKept s signum cookie base cbk none v based made =
      let ctx : Context l = record { cbk = cbk; cookie = cookie; event = none } in
      record {
        known = λ e sig p.
            let (old, found, its) = v.known e sig p in
            (
              old,
              find-cons_other l (l.user_data e) s.fresh ctx old s.contexts v.descends found,
              its,
            );
        descends = (omega arith, v.descends);
        once = λ a. once-cons l a s.fresh ctx s.called s.contexts (v.once a);
      }
  context-IsKept s signum cookie base cbk (some e) v based made =
      let ctx : Context l = record { cbk = cbk; cookie = cookie; event = some e } in
      let (at, _) = keeps.evsignal_new-made base signum s.fresh e made in
      record {
        known = λ e' sig (base', same, pends).
            elim (keeps.pending-add_other e e' none base (
              subst (λ x. l.pending x e' ≡ true)
                (sym (some-injective (l.event_add e none base) base' same)) pends)) [
                  | inl new ↦ (
                    ctx,
                    ap (λ j. find_context l j ((s.fresh, ctx) ∷ s.contexts))
                          (ap l.user_data new ∙ at)
                        ∙ find-cons l s.fresh ctx s.contexts,
                    ap some (sym new),
                  )
                  | inr was ↦
                      let (old, found, its) = v.known e' sig (base, based, was) in
                      (
                        old,
                        find-cons_other l (l.user_data e') s.fresh ctx old s.contexts v.descends
                            found,
                        its,
                      )
                ];
        descends = (omega arith, v.descends);
        once = λ a. once-cons l a s.fresh ctx s.called s.contexts (v.once a);
      }

  add_signal-IsKept :
      (s t : EventImpl l) (signum cookie : ℕ) (cbk : Option ℕ) (ok : Bool)
      → add_signal l signum cbk cookie s ≡ some (t, ok)
      → IsKept l s
      → IsKept l t
  unfolding add_signal
  add_signal-IsKept s t signum cookie cbk ok gave v = elim (Option-cases s.pevbase) [
    | inl null ↦ absurd (ground arith)
    | inr (base, based) ↦
        subst (IsKept l) (ground arith) (
          context-IsKept s signum cookie base cbk (l.evsignal_new base signum s.fresh) v based refl)
  ]

  file-IsKept :
      (s t : EventImpl l) (e : l.Event) (time : Option (ℕ × ℕ))
      → l.is_signal e ≡ false
      → add_to_ev l e time s ≡ some t
      → IsKept l s
      → IsKept l t
  unfolding add_to_ev
  file-IsKept s t e time file gave v = elim (Option-cases s.pevbase) [
    | inl null ↦ absurd (ground arith)
    | inr (base, based) ↦ subst (IsKept l) (ground arith) (
        base_becomes l s base (l.event_add e time base) v based (λ e' sig pends.
          elim (keeps.pending-add_other e e' time base pends) [
            | inl same ↦ absurd (true≢false (sym sig ∙ (ap l.is_signal same ∙ file)))
            | inr was ↦ was
          ]))
  ]

  remove-IsKept : (s : EventImpl l) (e : l.Event) → IsKept l s → IsKept l (remove_from_ev l e s)
  unfolding remove_from_ev
  remove-IsKept s e v = elim (Option-cases s.pevbase) [
    | inl null ↦ rw null (no_base l s s.freed v)
    | inr (base, based) ↦ rw based (
        base_becomes l s base (l.event_del e base) v based
          (λ e' sig. keeps.pending-del_other e e' base))
  ]

  exit-IsKept : (s t : EventImpl l) → exit_loop l s ≡ some t → IsKept l s → IsKept l t
  unfolding exit_loop
  exit-IsKept s t gave v = elim (Option-cases s.pevbase) [
    | inl null ↦ absurd (ground arith)
    | inr (base, based) ↦ subst (IsKept l) (ground arith) (
        base_becomes l s base (l.event_base_loopexit (2, 0) base) v based
          (λ e sig pends. sym (keeps.pending-loopexit e (2, 0) base) ∙ pends))
  ]

  delete-IsKept : (s : EventImpl l) → IsKept l s → IsKept l (delete_event_impl l s)
  unfolding delete_event_impl
  delete-IsKept s v = elim (Option-cases s.pevbase) [
    | inl null ↦ rw null (no_base l s s.freed v)
    | inr (base, based) ↦ rw based (no_base l s (base ∷ s.freed) v)
  ]

  Step-IsKept : (s t : EventImpl l) → Step l s t → IsKept l s → IsKept l t
  Step-IsKept s t (delivers base e events based sig pends gave) v =
      let (t', gave', v') = delivered s base e events v based sig pends in
      subst (IsKept l) (some-injective t' t (sym gave' ∙ gave)) v'
  Step-IsKept s t (adds_signal signum cookie cbk ok gave) v =
      add_signal-IsKept s t signum cookie cbk ok gave v
  Step-IsKept s t (adds e time file gave) v = file-IsKept s t e time file gave v
  Step-IsKept s t (removes e file is) v = subst (IsKept l) (sym is) (remove-IsKept s e v)
  Step-IsKept s t (exits gave) v = exit-IsKept s t gave v
  Step-IsKept s t (deletes is) v = subst (IsKept l) (sym is) (delete-IsKept s v)

  Steps-IsKept : (s t : EventImpl l) → Steps l s t → IsKept l s → IsKept l t
  Steps-IsKept s t here v = v
  Steps-IsKept s t (next {t = u} steps step) v = Step-IsKept u t step (Steps-IsKept s u steps v)

  new-IsKept : IsKept l (init_ev l (new_event_impl l)).0
  unfolding init_ev times
  new-IsKept = elim (Option-cases l.event_base_new) [
    | inl null ↦ rw null (record {
      known = λ e sig (base, same, pends). absurd (cc);
      descends = tt;
      once = λ a. inl refl;
    })
    | inr (base, made) ↦ rw made (record {
      known = λ e sig (base', same, pends). absurd (
          true≢false (
            sym pends
            ∙ (ap (λ x. l.pending x e) (sym (some-injective base base' same))
                ∙ keeps.pending-new base e made)));
      descends = tt;
      once = λ a. inl refl;
    })
  ]

-- Over a libevent in which an event is pending from its addition to its deletion, however the event
-- loop and the operations of the class alternate from `initEv` on: the callback of a signal runs at
-- most once for each `addSignal`, and the delivery of a pending signal returns, from a context that
-- is on the heap and whose callback has not run.
pub signals_once :
    (l : LibEvent) (laws : IsLibEvent l) (keeps : KeepsEvents l) (t : EventImpl l)
    → Steps l (init_ev l (new_event_impl l)).0 t
    → ((a : ℕ) → times a t.called ≤ 1)
      × ((e : l.Event) (events : ℕ)
          → l.is_signal e ≡ true
          → Pends l t e
          → (times (l.user_data e) t.called ≡ 0)
            × ((u : EventImpl l) × (signal_cbk l events (l.user_data e) t ≡ some u)))
signals_once l laws keeps t steps =
    let v : IsKept l t =
      Steps-IsKept l laws keeps (init_ev l (new_event_impl l)).0 t steps
        (new-IsKept l laws keeps) in
    (
      λ a. elim (v.once a) [ inl zero_yet ↦ omega arith | inr (one, gone, below) ↦ omega arith ],
      λ e events sig (base, based, pends).
          let (ctx, found, made) = v.known e sig (base, based, pends) in
          let (u, gave, _) = delivered l laws keeps t base e events v based sig pends in
          (
            elim (v.once (l.user_data e)) [
              | inl zero_yet ↦ zero_yet
              | inr (one, gone, below) ↦ absurd (cc)
            ],
            (u, gave),
          ),
    )
