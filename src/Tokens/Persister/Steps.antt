-- ===== src/Tokens/Persister/Steps.antt =====
-- Runs of the debounce timer: the operations and the runtime's moves, in any order.
use rune_admin.Prelude.{
  ℕ, suc, ◌+◌, ◌∙◌, ◌||◌, ◌≡◌, ◌≢◌, refl, Bool, true, false, none, List, [], ◌∷◌, arith, inl, inr,
  if◌then◌else◌, Bool-cases, Option-cases, ltb,
}
use rune_admin.Tokens.Persister.{
  Persister, is_armed, disarm, stop, schedule, expire, run_callback, flush, begin_persist, shutdown,
}

pub data Action : Type 0 where
  schedules : Action
  expires : ℕ → Action
  calls_back : Action
  flushes : Action
  begins : Action
  shuts_down : Action

-- One move: the new state, and whether it starts a write. A callback takes the lock only if its timer has expired, and a
-- write starts only if a callback or a flush is on the way to it.
unfoldable pub move : Persister → Action → Persister × Bool
move p schedules = (schedule p, false)
move p (expires n) = (expire n p, false)
move p calls_back = ((if ltb 0 p.fired then run_callback p else p), false)
move p flushes = (flush p, false)
move p begins = if ltb 0 p.cleared then (begin_persist p, true) else (p, false)
move p shuts_down = (shutdown p, false)

-- The writes that a run starts.
unfoldable pub run : Persister → List Action → Persister × ℕ
run p [] = (p, 0)
run p (a ∷ as_) =
    let (p', writes) = move p a in
    let (p'', rest) = run p' as_ in (p'', if writes then suc rest else rest)

abbrev IsShut : Persister → Type 0
IsShut p = (p.closed ≡ true) × (p.handle ≡ none)

move-IsShut :
    (p : Persister) (a : Action)
    → IsShut p
    → IsShut (move p a).0 × ((if (move p a).1 then 1 else 0) + (move p a).0.cleared ≡ p.cleared)
unfolding move schedule expire run_callback flush shutdown begin_persist
move-IsShut p schedules h = ground arith
move-IsShut p (expires n) h = ground arith
move-IsShut p calls_back h = ground arith
move-IsShut p flushes h = ground arith
move-IsShut p begins h = ground arith
move-IsShut p shuts_down h = ground arith

run-IsShut :
    (p : Persister) (as_ : List Action)
    → IsShut p
    → (run p as_).1 + (run p as_).0.cleared ≡ p.cleared
unfolding run
run-IsShut p [] h = omega arith
run-IsShut p (a ∷ as_) h =
    let (shut, count) = move-IsShut p a h in
    let rest = run-IsShut (move p a).0 as_ shut in
    elim (Bool-cases ((move p a).1)) [ inl e ↦ ground arith | inr e ↦ ground arith ]

-- After `Shutdown`, in any moves, the writes that start are those of callbacks and flushes that had let go of the lock
-- before it: they and the ones still on the way are together as many as were on the way at the `Shutdown`. No timer,
-- waiting callback, later change or later flush adds one.
pub writes_after_shutdown :
    (p : Persister) (as_ : List Action)
    → (run (shutdown p) as_).1 + (run (shutdown p) as_).0.cleared ≡ p.cleared
writes_after_shutdown p as_ =
    run-IsShut (shutdown p) as_ (unfold shutdown in (refl, refl)) ∙ unfold shutdown in refl

-- A timer is running, a callback waits for the lock, or one or a flush is on the way to its write.
abbrev pub is_pending : Persister → Bool
is_pending p = elim p.armed [ [] ↦ ltb 0 p.fired || ltb 0 p.cleared | _ ∷ _ ↦ true ]

abbrev pub no_shutdown : List Action → Bool
no_shutdown [] = true
no_shutdown (shuts_down ∷ _) = false
no_shutdown (_ ∷ as_) = no_shutdown as_

disarm-other : (n : ℕ) (is : List ℕ) → is_armed is n ≡ false → disarm n is ≡ is
unfolding is_armed disarm
disarm-other n [] h = refl
disarm-other n (i ∷ is) h = ground (arith, disarm-other n is)

record IsWaiting (p : Persister) : Type 0 where
  open_still : p.closed ≡ false
  pending : is_pending p ≡ true

schedule-IsWaiting : (p : Persister) → p.closed ≡ false → IsWaiting (schedule p)
unfolding schedule
schedule-IsWaiting p h = ground arith

expire-IsWaiting : (n : ℕ) (p : Persister) → IsWaiting p → IsWaiting (expire n p)
unfolding expire
expire-IsWaiting n p h = ground arith

flush-IsWaiting : (p : Persister) → IsWaiting p → IsWaiting (flush p)
unfolding flush stop
flush-IsWaiting p h = elim (Option-cases p.handle) [
  | inl e ↦ ground arith
  | inr (n, e) ↦ ground (arith, disarm-other n p.armed)
]

move-IsWaiting :
    (p : Persister) (a : Action)
    → IsWaiting p
    → a ≢ shuts_down
    → (move p a).1 ≡ false
    → IsWaiting (move p a).0
unfolding move run_callback begin_persist
move-IsWaiting p schedules h ne quiet = schedule-IsWaiting p h.open_still
move-IsWaiting p (expires n) h ne quiet = expire-IsWaiting n p h
move-IsWaiting p calls_back h ne quiet = ground arith
move-IsWaiting p flushes h ne quiet = flush-IsWaiting p h
move-IsWaiting p begins h ne quiet = ground arith
move-IsWaiting p shuts_down h ne quiet = absurd (ne refl)

quiet_run :
    (p : Persister) (a : Action) (as_ : List Action)
    → (run p (a ∷ as_)).1 ≡ 0
    → ((move p a).1 ≡ false) × ((run (move p a).0 as_).1 ≡ 0)
unfolding run
quiet_run p a as_ quiet = elim (Bool-cases ((move p a).1)) [
  | inl e ↦ absurd (ground arith)
  | inr e ↦ (e, ground arith)
]

up_run :
    (a : Action) (as_ : List Action)
    → no_shutdown (a ∷ as_) ≡ true
    → (a ≢ shuts_down) × (no_shutdown as_ ≡ true)
up_run schedules as_ h = ((λ e. cc), h)
up_run (expires n) as_ h = ((λ e. cc), h)
up_run calls_back as_ h = ((λ e. cc), h)
up_run flushes as_ h = ((λ e. cc), h)
up_run begins as_ h = ((λ e. cc), h)
up_run shuts_down as_ h = absurd (cc)

run-IsWaiting :
    (p : Persister) (as_ : List Action)
    → IsWaiting p
    → no_shutdown as_ ≡ true
    → (run p as_).1 ≡ 0
    → IsWaiting (run p as_).0
unfolding run
run-IsWaiting p [] h up quiet = h
run-IsWaiting p (a ∷ as_) h up quiet =
    let (quiet_now, quiet_later) = quiet_run p a as_ quiet in
    let (staying, later) = up_run a as_ up in
    run-IsWaiting (move p a).0 as_ (move-IsWaiting p a h staying quiet_now) later quiet_later

-- After a change has been scheduled on an open store, a timer, a callback or a flush stays pending
-- through any moves without a `Shutdown`, until one of them starts a write.
pub pending_until_write :
    (p : Persister) (as_ : List Action)
    → p.closed ≡ false
    → no_shutdown as_ ≡ true
    → (run (schedule p) as_).1 ≡ 0
    → is_pending (run (schedule p) as_).0 ≡ true
pending_until_write p as_ open_ up quiet =
    (run-IsWaiting (schedule p) as_ (schedule-IsWaiting p open_) up quiet).pending
