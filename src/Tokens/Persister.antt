-- ===== src/Tokens/Persister.antt =====
-- The debounce timer of store.go: `schedulePersist`, its callback, `Flush` and `Shutdown`. Timers
-- are numbered in the order in which they are made. A timer that has expired but whose callback has
-- not taken `persistMu` yet is counted in `fired`; one that has let go of it, and a `Flush` that has, but whose `doPersist`
-- has not started, in `cleared`.
pub mod Steps
use rune_admin.Prelude.{
  ℕ, suc, ◌+◌, ◌-◌, Bool, true, false, Option, none, some, List, [], ◌∷◌, ◌==ℕ◌, ◌||◌,
  if◌then◌else◌,
}

pub record Persister : Type 0 where
  pub handle : Option ℕ  -- persistTimer
  pub next : ℕ
  pub armed : List ℕ
  pub fired : ℕ
  pub cleared : ℕ
  pub closed : Bool

abbrev pub new_persister : Persister
new_persister = record {
  handle = none;
  next = 0;
  armed = [];
  fired = 0;
  cleared = 0;
  closed = false;
}

unfoldable pub is_armed : List ℕ → ℕ → Bool
is_armed [] n = false
is_armed (i ∷ is) n = i ==ℕ n || is_armed is n

unfoldable pub disarm : ℕ → List ℕ → List ℕ
disarm n [] = []
disarm n (i ∷ is) = let rest = disarm n is in if i ==ℕ n then rest else i ∷ rest

-- persistTimer.Stop(), where there is one: whether it was still running, and the timers left.
unfoldable pub stop : Option ℕ → List ℕ → Bool × List ℕ
unfolding is_armed disarm
stop none armed = (false, armed)
stop (some n) armed = (is_armed armed n, disarm n armed)

-- The part of `schedulePersist` below its test of the paths.
unfoldable pub schedule : Persister → Persister
unfolding stop
schedule p = if p.closed then p else record p {
  handle = some p.next;
  next = suc p.next;
  armed = p.next ∷ (stop p.handle p.armed).1;
}

-- The timer `n` expires: its callback starts, and waits for `persistMu`.
unfoldable pub expire : ℕ → Persister → Persister
unfolding is_armed disarm
expire n p =
    if is_armed p.armed n then record p { armed = disarm n p.armed; fired = suc p.fired } else p

-- The callback under the lock: past it, it is on the way to `doPersist`, unless the store is closed.
unfoldable pub run_callback : Persister → Persister
run_callback p =
    let p' = record p { handle = none; fired = p.fired - 1 } in
    if p.closed then p' else record p' { cleared = suc p.cleared }

-- The part of `Flush` under the lock, after which it calls `doPersist` if a timer was still running.
unfoldable pub flush : Persister → Persister
unfolding stop
flush p =
    let (pending, armed') = stop p.handle p.armed in
    let p' = record p { handle = none; armed = armed' } in
    if pending then record p' { cleared = suc p.cleared } else p'

-- `doPersist` starts, in a callback or a `Flush` that let go of the lock before.
unfoldable pub begin_persist : Persister → Persister
begin_persist p = record p { cleared = p.cleared - 1 }

-- The part of `Shutdown` under the lock. It writes nothing, and the wait that follows it is only for what has called
-- `persistWG.Add`.
unfoldable pub shutdown : Persister → Persister
unfolding stop
shutdown p = record p { closed = true; handle = none; armed = (stop p.handle p.armed).1 }
