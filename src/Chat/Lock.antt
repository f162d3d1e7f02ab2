-- ===== src/Chat/Lock.antt =====
-- 3-budget-chat/main.go: `usersLock` and the channel of events, with the looper, the readers of the sessions
-- and `leave` interleaved. The events of a reader are any. `register` takes the lock and sends in the
-- same way as `leave`, and is left out here.
use protohackers.Prelude.{
  ℕ, ◌+◌, ◌<◌, ◌≤◌, ◌≡◌, ◌∙◌, inl, inr, refl, sym, ap, subst, Bool-cases, ==_iff, List, [], ◌∷◌,
  ◌++◌, append-nil, append_assoc, length, length-append, ◌==◌, if◌then◌else◌, arith,
}
use protohackers.Chat.{Event, capacity}

pub data Lock : Type 0 where
  unlocked read_locked : Lock
  write_locked : (session : ℕ) → Lock

-- Where the looper stands: at the receive, at `RLock`, or in the loop over the users.
pub data Looper : Type 0 where
  receiving : Looper
  received delivering : Event → Looper

-- Where a session stands: in the loop of its reader, at the lock in `leave`, at the send in `leave`, or after.
pub data Pc : Type 0 where
  reads at_lock at_send gone : Pc

pub record Threads : Type 0 where
  pub lock : Lock
  pub event : List Event
  pub looper : Looper
  pub pc : ℕ → Pc

abbrev pub set_pc : ℕ → Pc → (ℕ → Pc) → ℕ → Pc
set_pc i p pc k = if k == i then p else pc k

-- All sessions are in the room, and nothing was said.
abbrev pub all_read : Threads
all_read = record { lock = unlocked; event = []; looper = receiving; pc = λ i. reads }

pub data Moves (t : Threads) : Threads → Type 0 where
  says :
      (i : ℕ) (e : Event)
      → t.pc i ≡ reads
      → length t.event < capacity
      → Moves t (record t { event = t.event ++ e ∷ [] })
  ends : (i : ℕ) → t.pc i ≡ reads → Moves t (record t { pc = set_pc i at_lock t.pc })
  locks :
      (i : ℕ)
      → t.pc i ≡ at_lock
      → t.lock ≡ unlocked
      → Moves t (record t { lock = write_locked i; pc = set_pc i at_send t.pc })
  sends :
      (i : ℕ) (e : Event)
      → t.pc i ≡ at_send
      → length t.event < capacity
      → Moves t (record t { lock = unlocked; event = t.event ++ e ∷ []; pc = set_pc i gone t.pc })
  receives :
      (e : Event) (es : List Event)
      → t.looper ≡ receiving
      → t.event ≡ e ∷ es
      → Moves t (record t { looper = received e; event = es })
  read_locks :
      (e : Event)
      → t.looper ≡ received e
      → t.lock ≡ unlocked
      → Moves t (record t { lock = read_locked; looper = delivering e })
  read_unlocks :
      (e : Event)
      → t.looper ≡ delivering e
      → Moves t (record t { lock = unlocked; looper = receiving })

pub data Runs (t : Threads) : Threads → Type 0 where
  stop : Runs t t
  then_moves : {u v : Threads} → Runs t u → Moves u v → Runs t v

-- A session waits to send with the lock in its hand, and the looper waits for the lock.
abbrev IsStuck : ℕ → Event → List Event → Threads → Type 0
IsStuck i e es t =
    (t.lock ≡ write_locked i) × (t.event ≡ es) × (t.looper ≡ received e) × (t.pc i ≡ at_send)

module _ (i : ℕ) (e : Event) (es : List Event) (full : length es ≡ capacity) where
  Moves-IsStuck : {t u : Threads} → IsStuck i e es t → Moves t u → IsStuck i e es u
  Moves-IsStuck (lock, event, looper, pc) (says j f at room) =
      absurd (omega (arith, ap length event))
  Moves-IsStuck {t} (lock, event, looper, pc) (ends j at) = (
    lock,
    event,
    looper,
    elim (Bool-cases (i == j)) [
      | inl same ↦ cc (sym pc ∙ ap t.pc ((==_iff i j).0 same) ∙ at)
      | inr other ↦ rw other pc
    ],
  )
  Moves-IsStuck (lock, event, looper, pc) (locks j at free) = cc (sym lock ∙ free)
  Moves-IsStuck (lock, event, looper, pc) (sends j f at room) =
      absurd (omega (arith, ap length event))
  Moves-IsStuck (lock, event, looper, pc) (receives f fs at waiting) = cc (sym looper ∙ at)
  Moves-IsStuck (lock, event, looper, pc) (read_locks f at free) = cc (sym lock ∙ free)
  Moves-IsStuck (lock, event, looper, pc) (read_unlocks f at) = cc (sym looper ∙ at)

  Runs-IsStuck : {t u : Threads} → IsStuck i e es t → Runs t u → IsStuck i e es u
  Runs-IsStuck stuck stop = stuck
  Runs-IsStuck stuck (then_moves run move) = Moves-IsStuck (Runs-IsStuck stuck run) move

-- The reader of session 0 sends events one after the other.
says_all :
    (start t : Threads) (es : List Event)
    → Runs start t
    → t.pc 0 ≡ reads
    → length t.event + length es ≤ capacity
    → Runs start (record t { event = t.event ++ es })
says_all start t [] run at room =
    subst (λ es. Runs start (record t { event = es })) (sym (append-nil t.event)) run
says_all start t (e ∷ es) run at room =
    let t' : Threads = record t { event = t.event ++ e ∷ [] } in
    subst (λ es. Runs start (record t { event = es })) (append_assoc t.event (e ∷ []) es)
      (says_all start t' es (then_moves run (says 0 e at (omega arith))) at
        (omega (arith, length-append t.event (e ∷ []))))

-- Session 1 is about to send in `leave`, the channel holds the events `es`, and the looper has `e`.
abbrev pub blocked_threads : Event → List Event → Threads
blocked_threads e es = record {
  lock = write_locked 1;
  event = es;
  looper = received e;
  pc = set_pc 1 at_send (set_pc 1 at_lock (λ i. reads));
}

blocked_threads-reached :
    (e : Event) (es : List Event) → length es ≡ capacity → Runs all_read (blocked_threads e es)
blocked_threads-reached e es full =
    says_all all_read (blocked_threads e []) es
      (then_moves
        (then_moves
          (then_moves (then_moves stop (says 0 e refl (omega arith))) (receives e [] refl refl))
          (ends 1 refl))
        (locks 1 refl refl))
      refl (omega arith)

-- Whatever the events: a session may be about to send in `leave`, with the lock in its hand, when the readers
-- have filled the channel, while the looper has an event and waits for the lock; and from then on nothing
-- is received or delivered, and the lock stays as it is, whatever the threads do.
pub full_channel_blocks :
    (e : Event) (es : List Event) (t : Threads)
    → length es ≡ capacity
    → Runs (blocked_threads e es) t
    → Runs all_read (blocked_threads e es)
      × (t.event ≡ es)
      × (t.looper ≡ received e)
      × (t.lock ≡ write_locked 1)
full_channel_blocks e es t full run =
    let (lock, event, looper, _) = Runs-IsStuck 1 e es full (refl, refl, refl, refl) run in
    (blocked_threads-reached e es full, event, looper, lock)
