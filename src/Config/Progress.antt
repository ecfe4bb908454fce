-- ===== src/Config/Progress.antt =====
-- Calls on a `ConfigSnapshotManager` do not block each other for ever.
use net.Base.{
  ℕ, zero, suc, set, ◌++◌, ◌⊎◌, dec_lt, ◌+◌, ◌≤◌, ◌<◌, ◌≡◌, refl, Bool, true, false, some, List,
  total, total-set, get_elem?, All, total-add, total_pos, All-of-total, Bool-cases, inl, inr, arith,
}
use net.Config.{
  Manager, can_lock, can_lock_shared, Pc, idle, entering, writing, written, asking, reading, copied,
  using, Event, Move, lock, write, unlock, lock_shared, copy, unlock_shared, System, Reach, pick,
  later, call_publish,
}
use net.Config.Invariant.{bit, reads, writes, Reach-Inv}

-- A thread that is in `publish` or in `load`.
abbrev pub in_call : Pc → Bool
in_call idle = false
in_call (using _) = false
in_call _ = true

-- A thread in a call that can make its next move.
pub record CanMove (s : System) : Type 0 where
  pub index : ℕ
  pub pc : Pc
  pub here : get_elem? s.threads index ≡ some pc
  pub called : in_call pc ≡ true
  pub next_pc : Pc
  pub next : Manager
  pub events : List Event
  pub move : Move s.manager pc next next_pc events

can_move :
    {s : System} (i : ℕ) {p p' : Pc} {m : Manager} {events : List Event}
    → get_elem? s.threads i ≡ some p
    → in_call p ≡ true
    → Move s.manager p m p' events
    → CanMove s
can_move i {p = p} {p' = p'} {m = m} {events = events} h b mv = record {
  index = i;
  pc = p;
  here = h;
  called = b;
  next_pc = p';
  next = m;
  events = events;
  move = mv;
}

-- Whoever has the mutex can go on.
owner-CanMove :
    {s : System} (i : ℕ) (p : Pc)
    → get_elem? s.threads i ≡ some p
    → 0 < reads p + writes p
    → CanMove s
owner-CanMove i (writing c) h o = can_move i h refl write
owner-CanMove i (written c) h o = can_move i h refl unlock
owner-CanMove i reading h o = can_move i h refl copy
owner-CanMove i (copied c) h o = can_move i h refl unlock_shared
owner-CanMove i idle h o = absurd (omega arith)
owner-CanMove i p h o = absurd (omega arith)

-- Where the mutex is taken, someone has it.
taken-CanMove :
    {n : ℕ} {s : System} → Reach n s → 0 < s.manager.readers + bit s.manager.writer → CanMove s
taken-CanMove {s = s} r h =
    let (i, p, at_i, o) =
      total_pos (λ p. reads p + writes p) s.threads
        (omega (arith, total-add reads writes s.threads, readers_counted, writers_counted)) in
    owner-CanMove i p at_i o
  where
    open (Reach-Inv r) use {readers_counted, writers_counted}

not_free : (m : Manager) → can_lock m ≡ false → 0 < m.readers + bit m.writer
unfolding can_lock
not_free m h = ground arith

not_free_shared : (m : Manager) → can_lock_shared m ≡ false → 0 < m.readers + bit m.writer
unfolding can_lock_shared
not_free_shared m h = ground arith

-- In every state that threads reach, if a thread is in a call, then some thread in a call can make
-- its next move: calls never block each other for ever.
pub no_deadlock :
    {n : ℕ} {s : System}
    → Reach n s
    → (i : ℕ) (p : Pc) → get_elem? s.threads i ≡ some p
    → in_call p ≡ true
    → CanMove s
no_deadlock {s = s} r i (entering c) h b = elim (Bool-cases (can_lock s.manager)) [
  | inl free ↦ can_move i h refl (lock free)
  | inr taken ↦ taken-CanMove r (not_free s.manager taken)
]
no_deadlock {s = s} r i asking h b = elim (Bool-cases (can_lock_shared s.manager)) [
  | inl free ↦ can_move i h refl (lock_shared free)
  | inr taken ↦ taken-CanMove r (not_free_shared s.manager taken)
]
no_deadlock r i idle h b = cc
no_deadlock r i (using c) h b = cc
no_deadlock r i p h b = owner-CanMove i p h (omega arith)

-- A move of a thread in a call, and a run of `k` such moves.
pub data CallStep (s : System) : System → Type 0 where
  pick_call :
      (i : ℕ) {p p' : Pc} {m : Manager} {events : List Event}
      → get_elem? s.threads i ≡ some p
      → in_call p ≡ true
      → Move s.manager p m p' events
      → CallStep s (record { manager = m; threads = set s.threads i p'; trace = events ++ s.trace })

pub data Calls (s : System) : ℕ → System → Type 0 where
  no_move : Calls s zero s
  next_move : {k : ℕ} {t u : System} → Calls s k t → CallStep t u → Calls s (suc k) u

-- The moves that are left to a call.
abbrev pub remaining : Pc → ℕ
remaining (entering _) = 3
remaining (writing _) = 2
remaining (written _) = 1
remaining asking = 3
remaining reading = 2
remaining (copied _) = 1
remaining _ = 0

Move-remaining :
    {m m' : Manager} {p p' : Pc} {events : List Event}
    → in_call p ≡ true
    → Move m p m' p' events
    → remaining p ≡ suc (remaining p')
Move-remaining b (lock g) = refl
Move-remaining b write = refl
Move-remaining b unlock = refl
Move-remaining b (lock_shared g) = refl
Move-remaining b copy = refl
Move-remaining b unlock_shared = refl
Move-remaining b (call_publish s) = cc
Move-remaining b mv = cc

CallStep-remaining :
    {s t : System} → CallStep s t → total remaining s.threads ≡ suc (total remaining t.threads)
CallStep-remaining {s = s} (pick_call i {p} {p'} h b mv) =
    omega (arith, total-set remaining s.threads i p p' h, Move-remaining b mv)

Calls-remaining :
    {s t : System} {k : ℕ} → Calls s k t → total remaining s.threads ≡ k + total remaining t.threads
Calls-remaining no_move = omega arith
Calls-remaining (next_move r st) = omega (arith, Calls-remaining r, CallStep-remaining st)

Calls-Reach : {n : ℕ} {s : System} {k : ℕ} {t : System} → Reach n s → Calls s k t → Reach n t
Calls-Reach r no_move = r
Calls-Reach r (next_move c (pick_call i h b mv)) = later (Calls-Reach r c) (pick i h mv)

in_call-false : (p : Pc) → remaining p ≡ 0 → in_call p ≡ false
in_call-false idle h = refl
in_call-false (using c) h = refl
in_call-false p h = absurd (omega arith)

in_call-true : (p : Pc) → 0 < remaining p → in_call p ≡ true
in_call-true idle h = absurd (omega arith)
in_call-true (using c) h = absurd (omega arith)
in_call-true p h = refl

-- From every state that threads reach, however they are scheduled, if no new call begins: no more
-- moves are made in calls than the calls there are need (three each at most), after that many moves
-- no thread is in a call, and before that some thread in a call can make its next move.
pub Calls-finish :
    {n k : ℕ} {s t : System}
    → Reach n s
    → Calls s k t
    → (k ≤ total remaining s.threads)
      × ((k ≡ total remaining s.threads × All (λ p. in_call p ≡ false) t.threads)
          ⊎ (k < total remaining s.threads × CanMove t))
Calls-finish {k = k} {s = s} {t = t} r c = (
  omega (arith, Calls-remaining c),
  elim (dec_lt 0 (total remaining t.threads)) [
    | yes more ↦
        let (i, p, h, left) = total_pos remaining t.threads more in
        inr (
          omega (arith, Calls-remaining c),
          no_deadlock (Calls-Reach r c) i p h (in_call-true p left),
        )
    | no done ↦ inl (
      omega (arith, Calls-remaining c),
      All-of-total _ remaining in_call-false t.threads (omega arith),
    )
  ],
)
