-- ===== src/Runtime/Spine/Accepting.antt =====
-- The accept loop of src/runtime/spine.cpp: what it counts.
use net.Base.{
  ℕ, zero, suc, ◌+◌, ◌%◌, ◌≡◌, refl, sym, ap, ◌∙◌, Bool, true, false, not, ◌||◌, if◌then◌else◌,
  List, [], ◌∷◌, arith, subst,
}
use net.Observability.Metrics.{MetricsRegistry, TlsShard, record_accept, u64_mod}
use net.Observability.Metrics.Recording.{Record, accept, record_event, record_events}
use net.Runtime.Spine.{World}
use net.Runtime.Spine.Loop.{
  AcceptOutcome, accepted, operation_aborted, other_error, Accepted, spawned, ended, ignored,
  closed_socket, accept_step, advance, accept_loop,
}

-- `n` accepted connections, as records of the worker.
abbrev pub accepts_of : TlsShard → ℕ → List (TlsShard × Record)
accepts_of tls zero = []
accepts_of tls (suc n) = (tls, accept) ∷ accepts_of tls n

-- What the loop sees up to its end: the connections that pass, and those that do not.
abbrev pub count_passing : Bool → Bool → List AcceptOutcome → ℕ
count_passing checks is_open [] = 0
count_passing checks is_open (operation_aborted ∷ os) = 0
count_passing checks is_open (other_error ∷ os) =
    if is_open then count_passing checks is_open os else 0
count_passing checks is_open (accepted same ∷ os) =
    (if not checks || same then 1 else 0) + count_passing checks is_open os

abbrev pub count_failing : Bool → Bool → List AcceptOutcome → ℕ
count_failing checks is_open [] = 0
count_failing checks is_open (operation_aborted ∷ os) = 0
count_failing checks is_open (other_error ∷ os) =
    if is_open then count_failing checks is_open os else 0
count_failing checks is_open (accepted same ∷ os) =
    (if not checks || same then 0 else 1) + count_failing checks is_open os

record_events-accept :
    (tls : TlsShard) (n : ℕ) (r : MetricsRegistry)
    → record_events (record_accept tls r) (accepts_of tls n)
      ≡ record_events r (accepts_of tls (suc n))
unfolding record_events record_event
record_events-accept tls n r = refl

-- What is known of the state after the loop, from that before.
pub record Counts (tls : TlsShard) (checks is_open : Bool) (os : List AcceptOutcome) (v : ℕ)
    (g : MetricsRegistry) (r : World × ℕ) : Type 0 where
  pub handed_on : r.1 ≡ count_passing checks is_open os
  pub violations :
      r.0.spine.affinity_violation_count % u64_mod ≡ (v + count_failing checks is_open os) % u64_mod
  pub recorded : r.0.registry ≡ record_events g (accepts_of tls r.1)

accept_loop-cons :
    (tls : TlsShard) (w w' : World) (o : AcceptOutcome) (os : List AcceptOutcome) (what : Accepted)
    → accept_step tls w o ≡ (w', what)
    → accept_loop tls w (o ∷ os) ≡ advance w' what (accept_loop tls w' os)
unfolding accept_loop
accept_loop-cons tls w w' o os what h = ap (λ r. advance r.0 r.1 (accept_loop tls r.0 os)) h

accept_loop-nil : (tls : TlsShard) (w : World) → (w, 0) ≡ accept_loop tls w []
unfolding accept_loop
accept_loop-nil tls w = refl

abbrev recorded_one : TlsShard → World → World
recorded_one tls w = record w { registry = record_accept tls w.registry }

abbrev violated : World → World
violated w = record w {
  spine = record w.spine {
    affinity_violation_count = (w.spine.affinity_violation_count + 1) % u64_mod;
  };
}

step-passing :
    (tls : TlsShard) (w : World) (same checks : Bool)
    → w.spine.config.enable_executor_affinity_checks ≡ checks
    → (not checks || same) ≡ true
    → accept_step tls w (accepted same) ≡ (recorded_one tls w, spawned)
unfolding accept_step
step-passing tls w true true c h = ground (arith, c)
step-passing tls w true false c h = ground (arith, c)
step-passing tls w false true c h = absurd (ground (arith, h))
step-passing tls w false false c h = ground (arith, c)

step-failing :
    (tls : TlsShard) (w : World)
    → w.spine.config.enable_executor_affinity_checks ≡ true
    → accept_step tls w (accepted false) ≡ (violated w, closed_socket)
unfolding accept_step
step-failing tls w c = ground (arith, c)

step-error :
    (tls : TlsShard) (w : World) (is_open : Bool)
    → w.spine.is_open ≡ is_open
    → accept_step tls w other_error ≡ (w, (if is_open then ignored else ended))
unfolding accept_step
step-error tls w true o = ground (arith, o)
step-error tls w false o = ground (arith, o)

step-aborted : (tls : TlsShard) (w : World) → accept_step tls w operation_aborted ≡ (w, ended)
unfolding accept_step
step-aborted tls w = refl

same_passes : (checks : Bool) → (not checks || true) ≡ true
same_passes true = refl
same_passes false = refl

module _ (tls : TlsShard) where
  Counts-stop :
      (w : World) (checks is_open : Bool) (os : List AcceptOutcome)
      → count_passing checks is_open os ≡ 0
      → count_failing checks is_open os ≡ 0
      → Counts tls checks is_open os w.spine.affinity_violation_count w.registry (w, 0)
  unfolding record_events
  Counts-stop w checks is_open os p f = record {
    handed_on = sym p;
    violations = omega (arith, f);
    recorded = refl;
  }

  Counts-passing :
      (w : World) (checks same is_open : Bool) (os : List AcceptOutcome) (r : World × ℕ)
      → (not checks || same) ≡ true
      → Counts tls checks is_open os w.spine.affinity_violation_count
          (record_accept tls w.registry)
          r
      → Counts tls checks is_open
          (accepted same ∷ os)
          w.spine.affinity_violation_count
          w.registry
          (r.0, suc r.1)
  Counts-passing w checks same is_open os r h k = record {
    handed_on = ground (arith, h, k.handed_on);
    violations = ground (arith, h, k.violations);
    recorded = k.recorded ∙ record_events-accept tls r.1 w.registry;
  }

  Counts-failing :
      (w : World) (is_open : Bool) (os : List AcceptOutcome) (r : World × ℕ)
      → Counts tls true is_open os ((w.spine.affinity_violation_count + 1) % u64_mod) w.registry r
      → Counts tls true is_open (accepted false ∷ os) w.spine.affinity_violation_count w.registry r
  Counts-failing w is_open os r k = record {
    handed_on = omega (arith, k.handed_on);
    violations = omega (arith, k.violations);
    recorded = k.recorded;
  }

  Counts-error :
      (w : World) (checks : Bool) (os : List AcceptOutcome) (r : World × ℕ)
      → Counts tls checks true os w.spine.affinity_violation_count w.registry r
      → Counts tls checks true (other_error ∷ os) w.spine.affinity_violation_count w.registry r
  Counts-error w checks os r k = record {
    handed_on = k.handed_on;
    violations = k.violations;
    recorded = k.recorded;
  }

  loop-passing :
      (w : World) (same checks is_open : Bool) (os : List AcceptOutcome)
      → w.spine.config.enable_executor_affinity_checks ≡ checks
      → (not checks || same) ≡ true
      → Counts tls checks is_open os w.spine.affinity_violation_count
          (record_accept tls w.registry)
          (accept_loop tls (recorded_one tls w) os)
      → Counts tls checks is_open
          (accepted same ∷ os)
          w.spine.affinity_violation_count
          w.registry
          (accept_loop tls w (accepted same ∷ os))
  loop-passing w same checks is_open os c h k =
      subst
        (Counts tls checks is_open (accepted same ∷ os) w.spine.affinity_violation_count w.registry)
        (sym (
          accept_loop-cons tls w (recorded_one tls w) (accepted same) os spawned
            (step-passing tls w same checks c h)))
        (Counts-passing w checks same is_open os _ h k)

  -- The loop hands on just the connections that pass the affinity check, or all if it is switched
  -- off, up to its end; it records one accepted connection for each of them, and no other; and it
  -- counts one violation, modulo 2^64, for each that fails. It ends when it is told that its wait
  -- was aborted, or of any error once the acceptor is closed.
  pub accept_loop-Counts :
      (w : World) (os : List AcceptOutcome) (checks is_open : Bool)
      → w.spine.config.enable_executor_affinity_checks ≡ checks
      → w.spine.is_open ≡ is_open
      → Counts tls checks is_open os w.spine.affinity_violation_count w.registry
          (accept_loop tls w os)
  accept_loop-Counts w [] checks is_open c o =
      subst (Counts tls checks is_open [] w.spine.affinity_violation_count w.registry)
        (accept_loop-nil tls w) (Counts-stop w checks is_open [] refl refl)
  accept_loop-Counts w (operation_aborted ∷ os) checks is_open c o =
      subst
        (Counts tls checks is_open (operation_aborted ∷ os) w.spine.affinity_violation_count
          w.registry)
        (sym (accept_loop-cons tls w w operation_aborted os ended (step-aborted tls w)))
        (Counts-stop w checks is_open (operation_aborted ∷ os) refl refl)
  accept_loop-Counts w (other_error ∷ os) checks true c o =
      subst (Counts tls checks true (other_error ∷ os) w.spine.affinity_violation_count w.registry)
        (sym (accept_loop-cons tls w w other_error os ignored (step-error tls w true o)))
        (Counts-error w checks os _ (accept_loop-Counts w os checks true c o))
  accept_loop-Counts w (other_error ∷ os) checks false c o =
      subst (Counts tls checks false (other_error ∷ os) w.spine.affinity_violation_count w.registry)
        (sym (accept_loop-cons tls w w other_error os ended (step-error tls w false o)))
        (Counts-stop w checks false (other_error ∷ os) refl refl)
  accept_loop-Counts w (accepted true ∷ os) checks is_open c o =
      loop-passing w true checks is_open os c (same_passes checks)
        (accept_loop-Counts (recorded_one tls w) os checks is_open c o)
  accept_loop-Counts w (accepted false ∷ os) false is_open c o =
      loop-passing w false false is_open os c refl
        (accept_loop-Counts (recorded_one tls w) os false is_open c o)
  accept_loop-Counts w (accepted false ∷ os) true is_open c o =
      subst
        (Counts tls true is_open (accepted false ∷ os) w.spine.affinity_violation_count w.registry)
        (sym (
          accept_loop-cons tls w (violated w) (accepted false) os closed_socket
            (step-failing tls w c)))
        (Counts-failing w is_open os _ (accept_loop-Counts (violated w) os true is_open c o))
