-- ===== src/ServiceThread/Joining.antt =====
-- `ServiceThread::stop` with its wait (server/src/ServiceThread.cpp), for a thread that is in its
-- event loop.
use remote_dict.Prelude.{
  ℕ, ◌≡◌, refl, Bool, true, false, Option, some, List, [], ◌∷◌, ◌++◌, ◌>>=◌, arith, length, suc, ap,
}
use remote_dict.ServiceThread.{
  Handlers, Thread, wake_exit, write_wake, stop, stop_thread, drain_queue, on_byte, end_run,
  run_out, join,
}

module _ {ℓ} {S : Type ℓ} (handlers : Handlers S) where
  -- A thread that was told to exit stays so.
  on_byte-loop_exit :
      (byte : ℕ) (t : Thread S) → t.loop_exit ≡ true → (on_byte handlers byte t).loop_exit ≡ true
  unfolding on_byte stop_thread drain_queue
  on_byte-loop_exit byte t h = ground arith

  run_out-told :
      (bytes : List ℕ) (t : Thread S)
      → t.loop_exit ≡ true
      → (run_out handlers bytes t).exited ≡ true
  unfolding run_out end_run
  run_out-told [] t h = ground arith
  run_out-told (byte ∷ rest) t h =
      run_out-told rest (on_byte handlers byte (record t { wakes = rest }))
        (on_byte-loop_exit byte (record t { wakes = rest }) h)

  run_out-exit :
      (bytes : List ℕ) (t : Thread S)
      → (run_out handlers (bytes ++ (wake_exit ∷ [])) t).exited ≡ true
  unfolding run_out on_byte stop_thread
  run_out-exit [] t = run_out-told [] (on_byte handlers wake_exit (record t { wakes = [] })) refl
  run_out-exit (byte ∷ rest) t =
      run_out-exit rest (on_byte handlers byte (record t { wakes = rest ++ (wake_exit ∷ []) }))

  -- `stop` returns, whatever its `write` gives, and where the byte was written the thread has ended.
  pub join_total :
      (sent : Bool) (t : Thread S)
      → (u : Thread S) × (join handlers sent true t ≡ some (u, sent))
        × (sent ≡ true → u.exited ≡ true)
  unfolding join stop write_wake
  join_total false t = (_, refl, λ e. absurd (cc))
  join_total true t =
      let t' : Thread S = (stop true t).0 in
      let ends : (run_out handlers t'.wakes t').exited ≡ true = run_out-exit t.wakes t' in
      (run_out handlers t'.wakes t', rw ends refl, λ e. ends)

  -- `stop` of one thread after the other.
  unfoldable pub join_all : Bool → Bool → List (Thread S) → Option (List (Thread S))
  join_all sent loops [] = some []
  join_all sent loops (t ∷ ts) = do
    r ← join handlers sent loops t
    rest ← join_all sent loops ts
    some (r.0 ∷ rest)

abbrev pub AllExited {ℓ} : {S : Type ℓ} → List (Thread S) → Type 0
AllExited [] = Unit
AllExited (t ∷ ts) = (t.exited ≡ true) × AllExited ts

module _ {ℓ} {S : Type ℓ} (handlers : Handlers S) where
  pub join_all_total :
      (sent : Bool) (ts : List (Thread S))
      → (us : List (Thread S)) × (join_all handlers sent true ts ≡ some us)
        × (length us ≡ length ts)
        × (sent ≡ true → AllExited us)
  unfolding join_all
  join_all_total sent [] = ([], refl, refl, λ e. tt)
  join_all_total sent (t ∷ ts) =
      let (u, joins, out) = join_total handlers sent t in
      let (us, all, count, outs) = join_all_total sent ts in
      (u ∷ us, rw (joins, all) refl, ap suc count, λ e. (out e, outs e))
