-- ===== src/Config/Invariant/Moves.antt =====
-- Each move keeps each field of the invariant.
use net.Base.{
  ℕ, zero, suc, ◌+◌, ◌≤◌, ◌<◌, ◌≡◌, refl, sym, ◌∙◌, subst, true, false, Option, none, some, List,
  ◌∷◌, ◌++◌, get_elem?, set, All, total, total-set, le-total, total-add, set-set, All-set,
  All-get_elem?, All-of-total, arith,
}
use net.Config.{
  Manager, new_manager, retain, drop_ref, can_lock, can_lock_shared, store_current, copy_current,
  Pc, idle, writing, written, copied, Event, loaded, Move, call_publish, lock, write, unlock,
  call_load, lock_shared, copy, unlock_shared, release, System, pick, all_idle, Reach, start, later,
}
use net.Config.Invariant.Defs.{
  bit, reads, writes, refers, holds, IsFresh, Register, new, put, get, Inv,
}

-- Thread `i` goes from `p` to `p'`: what the sums over the threads do.
record Mover (pcs : List Pc) (i : ℕ) (p p' : Pc) : Type 0 where
  here : get_elem? pcs i ≡ some p
  readers : total reads (set pcs i p') + reads p ≡ total reads pcs + reads p'
  writers : total writes (set pcs i p') + writes p ≡ total writes pcs + writes p'
  holders : (k : ℕ) → total (holds k) (set pcs i p') + holds k p ≡ total (holds k) pcs + holds k p'
  a_reader : reads p ≤ total reads pcs
  a_writer : writes p ≤ total writes pcs

mover : {pcs : List Pc} {i : ℕ} {p : Pc} → get_elem? pcs i ≡ some p → (p' : Pc) → Mover pcs i p p'
mover {pcs} {i} {p} h p' = record {
  here = h;
  readers = total-set reads pcs i p p' h;
  writers = total-set writes pcs i p p' h;
  holders = λ k. total-set (holds k) pcs i p p' h;
  a_reader = le-total reads pcs i p h;
  a_writer = le-total writes pcs i p h;
}

outside-IsFresh : (c : Option ℕ) (p : Pc) → reads p + writes p ≡ 0 → IsFresh c p
outside-IsFresh c (written s) h = absurd (omega arith)
outside-IsFresh c (copied s) h = absurd (omega arith)
outside-IsFresh c idle h = tt
outside-IsFresh c p h = tt

module _ {m : Manager} {pcs : List Pc} {trace : List Event} (inv : Inv m pcs trace) (i : ℕ) where
  open inv use {
    exclusive, readers_counted, writers_counted, counted, fresh, value, register, agrees,
  }

  Move-readers :
      {p p' : Pc} {m' : Manager} {events : List Event}
      → Move m p m' p' events
      → Mover pcs i p p'
      → m'.readers ≡ total reads (set pcs i p')
  unfolding store_current copy_current
  Move-readers call_load f = omega arith
  Move-readers mv f = omega arith

  Move-writers :
      {p p' : Pc} {m' : Manager} {events : List Event}
      → Move m p m' p' events
      → Mover pcs i p p'
      → bit m'.writer ≡ total writes (set pcs i p')
  unfolding store_current copy_current can_lock
  Move-writers (lock g) f = ground (arith, g)
  Move-writers unlock f = ground arith
  Move-writers mv f = omega arith

  Move-exclusive :
      {p p' : Pc} {m' : Manager} {events : List Event}
      → Move m p m' p' events
      → Mover pcs i p p'
      → m'.writer ≡ true
      → m'.readers ≡ 0
  unfolding store_current copy_current can_lock can_lock_shared
  Move-exclusive (lock g) f = ground (arith, g)
  Move-exclusive (lock_shared g) f = ground (arith, g)
  Move-exclusive mv f = ground arith

  Move-counted :
      {p p' : Pc} {m' : Manager} {events : List Event}
      → Move m p m' p' events
      → Mover pcs i p p'
      → (k : ℕ) → m'.refs k ≡ refers k m'.current + total (holds k) (set pcs i p')
  unfolding store_current copy_current retain drop_ref
  Move-counted (call_publish none) f k = omega (arith, counted k)
  Move-counted (call_publish (some s)) f k = ground (arith, counted k, f.holders k)
  Move-counted write f k = ground (arith, counted k, f.holders k)
  Move-counted copy f k = ground (arith, counted k, f.holders k)
  Move-counted release f k = ground (arith, counted k, f.holders k)
  Move-counted mv f k = omega (arith, counted k, f.holders k)

  not_written : 0 < m.readers → m.writer ≡ false
  not_written h = ground arith

  -- While a thread may write, no other has the lock.
  alone :
      {s : Option ℕ}
      → Mover pcs i (writing s) idle
      → (c : Option ℕ) → All (IsFresh c) (set pcs i idle)
  alone f c =
      All-of-total (IsFresh c) (λ p. reads p + writes p) (outside-IsFresh c) (set pcs i idle)
        (ground (arith, total-add reads writes (set pcs i idle)))

  Move-IsFresh :
      {p p' : Pc} {m' : Manager} {events : List Event}
      → Move m p m' p' events
      → Mover pcs i p p'
      → All (IsFresh m'.current) (set pcs i p')
  unfolding store_current copy_current
  Move-IsFresh (write {s}) f =
      subst (All (IsFresh s)) (set-set pcs i idle (written s))
        (All-set (IsFresh s) _ i (written s) (alone (mover f.here idle) s) refl)
  Move-IsFresh copy f = All-set (IsFresh m.current) pcs i _ fresh refl
  Move-IsFresh mv f = All-set (IsFresh m.current) pcs i _ fresh tt

  Move-Register :
      {p p' : Pc} {m' : Manager} {events : List Event}
      → Move m p m' p' events
      → Mover pcs i p p'
      → (v : Option ℕ) × Register v (events ++ trace) × (m'.writer ≡ false → v ≡ m'.current)
  unfolding store_current copy_current
  Move-Register (unlock {s}) f =
      (s, put register, λ h. sym (All-get_elem? (IsFresh m.current) pcs i (written s) fresh f.here))
  Move-Register (unlock_shared {s}) f = (
    value,
    subst (λ t. Register value (loaded t ∷ trace))
        (agrees (not_written (omega arith))
          ∙ All-get_elem? (IsFresh m.current) pcs i (copied s) fresh f.here)
        (get register),
    agrees,
  )
  Move-Register (lock g) f = (value, register, λ h. cc)
  Move-Register write f = (value, register, λ h. ground arith)
  Move-Register mv f = (value, register, agrees)

  Move-Inv :
      {p p' : Pc} {m' : Manager} {events : List Event}
      → Move m p m' p' events
      → get_elem? pcs i ≡ some p
      → Inv m' (set pcs i p') (events ++ trace)
  Move-Inv {p = p} {p' = p'} {m' = m'} {events = events} mv h = record {
    exclusive = Move-exclusive mv f;
    readers_counted = Move-readers mv f;
    writers_counted = Move-writers mv f;
    counted = Move-counted mv f;
    fresh = Move-IsFresh mv f;
    value = after.0;
    register = after.1;
    agrees = after.2;
  }
    where
      f : Mover pcs i p p'
      f = mover h p'

      after : (v : Option ℕ) × Register v (events ++ trace) × (m'.writer ≡ false → v ≡ m'.current)
      after = Move-Register mv f

idle-total : (w : Pc → ℕ) (n : ℕ) → w idle ≡ 0 → total w (all_idle n) ≡ 0
unfolding total
idle-total w zero h = refl
idle-total w (suc n) h = omega (arith, idle-total w n h)

idle-All : (c : Option ℕ) (n : ℕ) → All (IsFresh c) (all_idle n)
idle-All c zero = tt
idle-All c (suc n) = (tt, idle-All c n)

-- Every state that threads reach has the invariant.
pub Reach-Inv : {n : ℕ} {s : System} → Reach n s → Inv s.manager s.threads s.trace
unfolding new_manager
Reach-Inv {n} start = record {
  exclusive = λ h. refl;
  readers_counted = sym (idle-total reads n refl);
  writers_counted = sym (idle-total writes n refl);
  counted = λ k. omega (arith, idle-total (holds k) n refl);
  fresh = idle-All none n;
  value = none;
  register = new;
  agrees = λ h. refl;
}
Reach-Inv (later r (pick i h mv)) = Move-Inv (Reach-Inv r) i mv h
