-- ===== src/Runtime/Spine/EventLoop/Totals.antt =====
-- What the metrics say of the connections of a worker.
use net.Base.{
  ℕ, ◌+◌, ◌%◌, ◌≡◌, refl, ap, ◌∙◌, Bool, true, List, ◌++◌, get_elem?, set, total, some,
  total-append, total-set, if◌then◌else◌, arith,
}
use net.Protocol.Codec.{Llhttp}
use net.Observability.Metrics.{u64_mod, new_shard, MetricsRegistry, TlsShard, aggregate}
use net.Observability.Metrics.Totals.{Counter, read, sum, total-aggregate}
use net.Observability.Metrics.Recording.{
  Record, accept, record_event, weight, is_bound, added, added_all, record_event-is_bound,
  record_event-sum,
}
use net.Runtime.Spine.{World}
use net.Runtime.Spine.EventLoop.Records.{
  contribution, Turned, quiet, counts, turn-Turned, Accepts, no_task, a_task, accept_step-Accepts,
}
use net.Runtime.Spine.EventLoop.{
  Task, turn, Loop, Step, run_task, run_accept, reload, close, record_elsewhere, Reach, start,
  later,
}

module _ (L : Llhttp) (tls : TlsShard) (g : MetricsRegistry) (live : is_bound g tls ≡ true) where
  record Inv (l : Loop L tls) : Type 0 where
    bound : (t : TlsShard) → is_bound l.world.registry t ≡ is_bound g t
    counted :
        (c : Counter)
        → sum c l.world.registry % u64_mod
          ≡ (sum c g + total (contribution c) l.tasks + added_all c g l.elsewhere) % u64_mod

  -- A record of the worker itself counts in full, one of another thread if it has bound a shard.
  own_record :
      (c : Counter) (l : Loop L tls) (e : Record)
      → Inv l
      → sum c (record_event l.world.registry (tls, e)) % u64_mod
        ≡ (sum c l.world.registry + weight c e) % u64_mod
  own_record c l e inv =
      record_event-sum c l.world.registry (tls, e)
      ∙ ap (λ b. (sum c l.world.registry + (if b then weight c e else 0)) % u64_mod)
          (inv.bound tls ∙ live)

  other_record :
      (c : Counter) (l : Loop L tls) (t : TlsShard) (e : Record)
      → Inv l
      → sum c (record_event l.world.registry (t, e)) % u64_mod
        ≡ (sum c l.world.registry + added c g (t, e)) % u64_mod
  other_record c l t e inv =
      record_event-sum c l.world.registry (t, e)
      ∙ ap (λ b. (sum c l.world.registry + (if b then weight c e else 0)) % u64_mod) (inv.bound t)

  Turned-Inv :
      (l : Loop L tls) (i : ℕ) (t : Task) (r : World × Task)
      → Inv l
      → get_elem? l.tasks i ≡ some t
      → Turned L tls l.world t r
      → Inv (record l { world = r.0; tasks = set l.tasks i r.1 })
  Turned-Inv l i t r inv h (quiet same none_added) = record {
    bound = λ u. ap (λ k. is_bound k u) same ∙ inv.bound u;
    counted = λ c. omega (
      arith,
      ap (sum c) same,
      inv.counted c,
      none_added c,
      total-set (contribution c) l.tasks i t r.1 h,
    );
  }
  Turned-Inv l i t r inv h (counts e one extra) = record {
    bound = λ u.
        ap (λ k. is_bound k u) one
        ∙ record_event-is_bound l.world.registry (tls, e) u
        ∙ inv.bound u;
    counted = λ c. omega (
      arith,
      ap (sum c) one,
      own_record c l e inv,
      inv.counted c,
      extra c,
      total-set (contribution c) l.tasks i t r.1 h,
    );
  }

  accepted-Inv :
      (l : Loop L tls) (is_accepting : Bool) (r : World × List Task)
      → Inv l
      → Accepts L tls l.world r
      → Inv (record l { world = r.0; is_accepting = is_accepting; tasks = l.tasks ++ r.1 })
  unfolding total
  accepted-Inv l b r inv (no_task same no_new) = record {
    bound = λ u. ap (λ k. is_bound k u) same ∙ inv.bound u;
    counted = λ c. omega (
      arith,
      ap (sum c) same,
      inv.counted c,
      ap (total (contribution c)) no_new,
      total-append (contribution c) l.tasks r.1,
    );
  }
  accepted-Inv l b r inv (a_task one new) = record {
    bound = λ u.
        ap (λ k. is_bound k u) one
        ∙ record_event-is_bound l.world.registry (tls, accept) u
        ∙ inv.bound u;
    counted = λ c. omega (
      arith,
      ap (sum c) one,
      own_record c l accept inv,
      inv.counted c,
      ap (total (contribution c)) new,
      total-append (contribution c) l.tasks r.1,
    );
  }

  Step-Inv : {l m : Loop L tls} → Inv l → Step L tls l m → Inv m
  Step-Inv {l} inv (run_task i c {t} h) =
      Turned-Inv l i t (turn L tls c l.world t) inv h (turn-Turned L tls c l.world t)
  Step-Inv {l} inv (run_accept o h) = accepted-Inv l _ _ inv (accept_step-Accepts L tls l.world o)
  Step-Inv inv (reload snapshot) = record { bound = inv.bound; counted = inv.counted }
  Step-Inv inv close = record { bound = inv.bound; counted = inv.counted }
  Step-Inv {l} inv (record_elsewhere (t, e)) = record {
    bound = λ u. record_event-is_bound l.world.registry (t, e) u ∙ inv.bound u;
    counted = λ c. omega (arith, other_record c l t e inv, inv.counted c);
  }

  Reach-Inv : (w : World) {l : Loop L tls} → w.registry ≡ g → Reach L tls w l → Inv l
  unfolding total
  Reach-Inv w same start = record {
    bound = λ u. ap (λ k. is_bound k u) same;
    counted = λ c. omega (arith, ap (sum c) same);
  }
  Reach-Inv w same (later r st) = Step-Inv (Reach-Inv w same r) st

-- On a worker whose thread has bound a live shard, however the turns of its connections and of its
-- accept loop interleave, whatever the system answers, and whatever other threads record, reload or
-- close in between: each total that is exported is, modulo 2^64, the sum of the counter over the
-- shards as they were at the start, what other threads have recorded, and what the connections have
-- come to: one accepted for each, one request and its bytes for each that has read, and one
-- response of its class and its bytes for each whose write has succeeded.
pub total-Reach :
    (L : Llhttp) (tls : TlsShard) (w : World) (l : Loop L tls) (c : Counter)
    → is_bound w.registry tls ≡ true
    → Reach L tls w l
    → read c (aggregate new_shard l.world.registry)
      ≡ (sum c w.registry + total (contribution c) l.tasks + added_all c w.registry l.elsewhere)
        % u64_mod
total-Reach L tls w l c live r =
    total-aggregate c l.world.registry ∙ (Reach-Inv L tls w.registry live w refl r).counted c
