-- ===== src/ServiceWorker/Sessions.antt =====
-- The events of a worker and its table of flows (server/src/ServiceWorker.cpp): the cookies of
-- the registered events are the addresses of the live flows.
use remote_dict.Prelude.{
  if◌then◌else◌, ℕ, ◌≡◌, refl, sym, ap, ◌∙◌, Bool, true, false, none, some, List, [], ◌∷◌, ◌++◌,
  arith, Bool-cases, Option-cases, ◌⊎◌, inl, inr,
}
use remote_dict.Text.{Text, text_eq_refl}
use remote_dict.UnorderedMap
use remote_dict.UnorderedMap.{
  UnorderedMap, find, Distinct, find-assign, find-erase, assign-Distinct, insert-Distinct,
  erase-Distinct,
}
use remote_dict.UnorderedMap.Keys.{keys, remove_key, keys-insert, keys-assign, keys-erase, find-key}
use remote_dict.TcpFlow.Buffer.{Flow, new_flow, Read}
use remote_dict.TcpFlow.Write.{Write}
use remote_dict.BloomFilter.{BloomFilter}
use remote_dict.Payload.{Codec}
use remote_dict.TcpFlow.Requests.{World}
use remote_dict.TcpFlow.Callback.{Done, data_event}
use remote_dict.ServiceWorker.{
  close_fd, Worker, process_event, remove_from_ev, destroy, delete_tcp_flow, destroy_all,
  clean_state, keep_flow, client_event,
}

abbrev pub cookies : List (ℕ × Text) → List Text
cookies [] = []
cookies ((fd, cookie) ∷ es) = cookie ∷ cookies es

pub record IsSafe (w : Worker) : Type 0 where
  pub distinct : Distinct w.tcp_sessions
  pub paired : cookies w.events ≡ keys w.tcp_sessions

cookies-append : (es es' : List (ℕ × Text)) → cookies (es ++ es') ≡ cookies es ++ cookies es'
cookies-append [] es' = refl
cookies-append ((fd, c) ∷ es) es' = ap (◌∷◌ c) (cookies-append es es')

cookies-remove_from_ev :
    (addr : Text) (es : List (ℕ × Text))
    → cookies (remove_from_ev addr es) ≡ remove_key addr (cookies es)
unfolding remove_from_ev remove_key
cookies-remove_from_ev addr [] = refl
cookies-remove_from_ev addr ((fd, c) ∷ es) = ground (arith, cookies-remove_from_ev addr es)

-- A descriptor handed to a worker, exiting or not, with a flow address that is not in use, keeps
-- the worker safe: the events are those of the sessions in order, without repetition.
pub process_event-IsSafe :
    (exiting : Bool) (addr : Text) (fd : ℕ) (w : Worker)
    → find addr w.tcp_sessions ≡ none
    → IsSafe w
    → IsSafe (process_event exiting addr fd w)
unfolding process_event
process_event-IsSafe true addr fd w new s = s
process_event-IsSafe false addr fd w new s = record {
  distinct = insert-Distinct addr (new_flow addr) w.tcp_sessions s.distinct;
  paired =
      cookies-append w.events ((fd, addr) ∷ [])
      ∙ ap (λ l. l ++ (addr ∷ [])) s.paired
      ∙ sym (keys-insert addr (new_flow addr) w.tcp_sessions new);
}

-- The delete callback keeps a worker safe, whether or not the address has a session.
delete_tcp_flow-IsSafe : (addr : Text) (w : Worker) → IsSafe w → IsSafe (delete_tcp_flow addr w)
unfolding delete_tcp_flow
delete_tcp_flow-IsSafe addr w s = elim (Option-cases (find addr w.tcp_sessions)) [
  | inl e ↦ rw (e, delete_tcp_flow) s
  | inr (f, e) ↦
      rw (e, delete_tcp_flow)
        (record {
          distinct = erase-Distinct addr w.tcp_sessions s.distinct;
          paired =
              cookies-remove_from_ev addr w.events
              ∙ ap (remove_key addr) s.paired
              ∙ sym (keys-erase addr w.tcp_sessions);
        })
]

cookies-nil : (es : List (ℕ × Text)) → cookies es ≡ [] → es ≡ []
cookies-nil [] h = refl
cookies-nil (e ∷ es) h = cc

remove_key-head : (k : Text) (ks : List Text) → remove_key k (k ∷ ks) ≡ ks
unfolding remove_key
remove_key-head k ks = rw (text_eq_refl k) refl

-- No flow of the table has had an event, so none knows its descriptor.
abbrev pub AllIdle : UnorderedMap Flow → Type 0
AllIdle [] = Unit
AllIdle ((addr, f) ∷ m) = (f.client_fd ≡ none) × AllIdle m

destroy_all_lem :
    (m : UnorderedMap Flow) (w : Worker)
    → cookies w.events ≡ keys m
    → ((destroy_all m w).events ≡ [])
      × ((destroy_all m w).tcp_sessions ≡ w.tcp_sessions)
      × (AllIdle m → (destroy_all m w).closed ≡ w.closed)
unfolding destroy_all
destroy_all_lem [] w h = (cookies-nil w.events h, refl, λ _. refl)
destroy_all_lem ((addr, f) ∷ m) w h =
    let (e, t, c) = destroy_all_lem m (destroy addr f w) (
      cookies-remove_from_ev addr w.events
      ∙ ap (remove_key addr) h
      ∙ remove_key-head addr (keys m)) in
    (e, t, λ idle. c idle.1 ∙ ground (arith, idle.0))

-- `cleanState` of a safe worker leaves no event and no session.
pub clean_state_lem :
    (w : Worker) → IsSafe w → ((clean_state w).events ≡ []) × ((clean_state w).tcp_sessions ≡ [])
unfolding clean_state
clean_state_lem w s =
    let (e, t, _) = destroy_all_lem w.tcp_sessions (record w { tcp_sessions = [] }) s.paired in
    (e, t)

-- `cleanState` of a safe worker whose sessions have had no event closes no descriptor.
pub clean_state_idle :
    (w : Worker) → IsSafe w → AllIdle w.tcp_sessions → (clean_state w).closed ≡ w.closed
unfolding clean_state
clean_state_idle w s idle =
    let (e, t, c) = destroy_all_lem w.tcp_sessions (record w { tcp_sessions = [] }) s.paired in
    c idle

event_flow :
    (before after : List (ℕ × Text)) (e : ℕ × Text) (w : Worker)
    → IsSafe w
    → w.events ≡ before ++ (e ∷ after)
    → (f : Flow) × (find e.1 w.tcp_sessions ≡ some f)
event_flow before after e w s h =
    find-key (cookies before) (cookies after) e.1 w.tcp_sessions
      (sym s.paired ∙ ap cookies h ∙ cookies-append before (e ∷ after))

delete_tcp_flow-closed :
    (addr : Text) (f : Flow) (w : Worker)
    → find addr w.tcp_sessions ≡ some f
    → (delete_tcp_flow addr w).closed ≡ close_fd f.client_fd w.closed
unfolding delete_tcp_flow destroy
delete_tcp_flow-closed addr f w e = rw (e, delete_tcp_flow) refl

module _ (b : BloomFilter) (codec : Codec) (alloc : ℕ → Bool) where
  keep_flow-IsSafe :
      (addr : Text) (d : Done b) (w : Worker) (f : Flow)
      → find addr w.tcp_sessions ≡ some f
      → IsSafe w
      → IsSafe (keep_flow b codec alloc addr d w)
  unfolding keep_flow
  keep_flow-IsSafe addr d w f h s =
      let w' : Worker = record w {
        tcp_sessions = UnorderedMap.assign addr d.flow w.tcp_sessions;
      } in
      let s' : IsSafe w' = record {
        distinct = assign-Distinct addr d.flow w.tcp_sessions s.distinct;
        paired = s.paired ∙ sym (keys-assign addr d.flow f w.tcp_sessions h);
      } in
      elim (Bool-cases d.gone) [
        | inl e ↦ rw e (delete_tcp_flow-IsSafe addr w' s')
        | inr e ↦ rw e s'
      ]

  keep_flow-closed :
      (addr : Text) (d : Done b) (w : Worker)
      → (keep_flow b codec alloc addr d w).closed
        ≡ (if d.gone then close_fd d.flow.client_fd w.closed else w.closed)
  unfolding keep_flow
  keep_flow-closed addr d w = elim (Bool-cases d.gone) [
    | inl e ↦ rw e (
        delete_tcp_flow-closed addr d.flow
          (record w { tcp_sessions = UnorderedMap.assign addr d.flow w.tcp_sessions })
          (find-assign addr addr d.flow w.tcp_sessions ∙ rw (text_eq_refl addr) refl))
    | inr e ↦ rw e refl
  ]

  -- The event of a safe worker finds its flow, never a destroyed one, and either the flow's
  -- callback meets undefined behaviour or the worker is safe after it. Then the worker has closed
  -- the descriptor that the flow knows, once, if the callback has dropped the connection, and
  -- nothing otherwise.
  pub client_event-IsSafe :
      (before after : List (ℕ × Text)) (e : ℕ × Text) (ev : ℕ) (reads : List Read)
      (writes : List Write) (w : Worker) (world : World b)
      → IsSafe w
      → w.events ≡ before ++ (e ∷ after)
      → (f : Flow) × (find e.1 w.tcp_sessions ≡ some f)
        × ((data_event b codec alloc e.0 ev reads writes f world ≡ none)
            ⊎ ((d : Done b) × (w' : Worker) × (data_event b codec alloc e.0 ev reads writes f world
                  ≡ some d)
                × (client_event b codec alloc e ev reads writes w world ≡ some (w', d.world))
                × (w'.closed ≡ (if d.gone then close_fd d.flow.client_fd w.closed else w.closed))
                × IsSafe w'))
  unfolding client_event
  client_event-IsSafe before after e ev reads writes w world s h =
      let (f, l) = event_flow before after e w s h in
      (
        f,
        l,
        elim (Option-cases (data_event b codec alloc e.0 ev reads writes f world)) [
          | inl r ↦ inl r
          | inr (d, r) ↦ inr (
            d,
            keep_flow b codec alloc e.1 d w,
            r,
            rw (l, r) refl,
            keep_flow-closed e.1 d w,
            keep_flow-IsSafe e.1 d w f l s,
          )
        ],
      )
