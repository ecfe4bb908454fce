-- ===== src/Runtime/Spine/EventLoop/Records.antt =====
-- What the turns of a worker record.
use net.Base.{
  ℕ, ◌+◌, ◌≡◌, refl, Bool, true, false, List, [], ◌∷◌, length, total, Bool-cases, inl, inr, not,
  ◌&&◌, if◌then◌else◌, arith,
}
use net.Protocol.Codec.{Llhttp}
use net.Observability.Metrics.{TlsShard, record_accept}
use net.Observability.Metrics.Totals.{Counter}
use net.Observability.Metrics.Recording.{Record, accept, request, response, record_event, weight}
use net.Runtime.Spine.{
  World, with_spine, check_executor_affinity, Response, ReadOutcome, received, failed, Connection,
  check_start, check_end,
}
use net.Runtime.Spine.Loop.{
  Accepted, closed_socket, spawned, AcceptOutcome, accepted, operation_aborted, other_error,
  accept_step,
}
use net.Runtime.Spine.EventLoop.{
  Task, starting, reading, posted, writing, unread, unwritten, written, after_read, after_write,
  turn, new_task,
}

-- What a connection has had recorded.
abbrev pub records_of : Task → List Record
records_of starting = accept ∷ []
records_of reading = accept ∷ []
records_of unread = accept ∷ []
records_of (posted n r) = accept ∷ request n ∷ []
records_of (writing n r) = accept ∷ request n ∷ []
records_of (unwritten n) = accept ∷ request n ∷ []
records_of (written n (status_code, payload)) =
    accept ∷ request n ∷ response status_code (length payload) ∷ []

abbrev pub contribution : Counter → Task → ℕ
contribution c t = total (weight c) (records_of t)

module _ (L : Llhttp) (tls : TlsShard) where
  -- What a turn of a connection records.
  pub data Turned (w : World) (t : Task) (r : World × Task) : Type 0 where
    quiet :
        r.0.registry ≡ w.registry
        → ((c : Counter) → contribution c r.1 ≡ contribution c t)
        → Turned w t r
    counts :
        (e : Record)
        → r.0.registry ≡ record_event w.registry (tls, e)
        → ((c : Counter) → contribution c r.1 ≡ contribution c t + weight c e)
        → Turned w t r

  start-Turned :
      (w w' : World) (ok : Bool)
      → w'.registry ≡ w.registry
      → Turned w starting (w', if ok then reading else unread)
  start-Turned w w' true h = quiet h (λ c. refl)
  start-Turned w w' false h = quiet h (λ c. refl)

  post-Turned :
      (w w' : World) (n : ℕ) (r : Response) (ok : Bool)
      → w'.registry ≡ w.registry
      → Turned w (posted n r) (w', if ok then writing n r else unwritten n)
  post-Turned w w' n r true h = quiet h (λ c. refl)
  post-Turned w w' n r false h = quiet h (λ c. refl)

  read-Turned : (w : World) (o : ReadOutcome) → Turned w reading (after_read L tls w o)
  unfolding after_read total record_event
  read-Turned w failed = quiet refl (λ c. refl)
  read-Turned w (received req) = counts (request (length req)) refl (λ c. omega arith)

  write-Turned :
      (ok : Bool) (w : World) (n : ℕ) (r : Response)
      → Turned w (writing n r) (after_write L tls ok w n r)
  unfolding after_write total record_event
  write-Turned true w n (status_code, payload) =
      counts (response status_code (length payload)) refl (λ c. omega arith)
  write-Turned false w n (status_code, payload) = quiet refl (λ c. refl)

  pub turn-Turned : (c : Connection) (w : World) (t : Task) → Turned w t (turn L tls c w t)
  unfolding turn
  turn-Turned c w starting = start-Turned w _ (check_start c w.spine).1 refl
  turn-Turned c w reading = read-Turned w c.read_outcome
  turn-Turned c w (posted n r) = post-Turned w _ n r (check_end c w.spine).1 refl
  turn-Turned c w (writing n r) = write-Turned c.write_ok w n r
  turn-Turned c w unread = quiet refl (λ c. refl)
  turn-Turned c w (unwritten n) = quiet refl (λ c. refl)
  turn-Turned c w (written n r) = quiet refl (λ c. refl)

  -- What a round of the accept loop records.
  pub data Accepts (w : World) (r : World × List Task) : Type 0 where
    no_task : r.0.registry ≡ w.registry → r.1 ≡ [] → Accepts w r
    a_task :
        r.0.registry ≡ record_event w.registry (tls, accept) → r.1 ≡ starting ∷ [] → Accepts w r

  accepted-Accepts :
      (w w' : World) (is_foreign : Bool)
      → w'.registry ≡ w.registry
      → let r : World × Accepted =
          if is_foreign
          then (w', closed_socket)
          else (record w { registry = record_accept tls w.registry }, spawned) in
        Accepts w (r.0, new_task r.1)
  unfolding record_event
  accepted-Accepts w w' true h = no_task h refl
  accepted-Accepts w w' false h = a_task refl refl

  pub accept_step-Accepts :
      (w : World) (o : AcceptOutcome)
      → Accepts w ((accept_step tls w o).0, new_task (accept_step tls w o).1)
  unfolding accept_step record_event
  accept_step-Accepts w operation_aborted = no_task refl refl
  accept_step-Accepts w other_error = elim (Bool-cases w.spine.is_open) [
    | inl on ↦ rw on (no_task refl refl)
    | inr off ↦ rw off (no_task refl refl)
  ]
  accept_step-Accepts w (accepted same) =
      let (s, ok) = check_executor_affinity same w.spine in
      accepted-Accepts w (with_spine w s) (w.spine.config.enable_executor_affinity_checks && not ok)
        refl
