-- ===== src/Domain/States/Lifecycle.antt =====
-- What the transition table of states.py allows over a whole life of a round.
use deki_smpc_server.Prelude.{ℕ, ◌+◌, ◌≤◌, ◌<◌, ◌≡◌, refl, true, arith, false}
use deki_smpc_server.Domain.States.{
  RoundState, created, registration_open, key_setup, key_aggregation, update_collection,
  aggregating, result_ready, transition_allowed, is_terminal, state_eq,
}

-- How far a state lies along the protocol; the terminal states come last.
abbrev pub rank : RoundState → ℕ
rank created = 0
rank registration_open = 1
rank key_setup = 2
rank key_aggregation = 3
rank update_collection = 4
rank aggregating = 5
rank result_ready = 6
rank _ = 7

-- Every allowed transition goes strictly forward.
pub rank_lt : (s t : RoundState) → transition_allowed s t ≡ true → rank s < rank t
unfolding transition_allowed
rank_lt created t h = ground arith
rank_lt _ t h = ground arith

-- No transition leaves a terminal state.
pub terminal_stuck : (s t : RoundState) → transition_allowed s t ≡ true → is_terminal s ≡ false
unfolding transition_allowed
terminal_stuck created t h = refl
terminal_stuck _ t h = ground arith

pub state_eq_sound : (s t : RoundState) → state_eq s t ≡ true → s ≡ t
state_eq_sound created t h = ground arith
state_eq_sound _ t h = ground arith

-- A row of allowed transitions from one state and version to another; each adds one to the version.
pub data Trail (s : RoundState) (v : ℕ) : RoundState → ℕ → Type 0 where
  here : {t : RoundState} {w : ℕ} → t ≡ s → w ≡ v → Trail s v t w
  next :
      {t : RoundState} {w : ℕ} (u : RoundState) (x : ℕ)
      → Trail s v u x
      → transition_allowed u t ≡ true
      → w ≡ x + 1
      → Trail s v t w

pub Trail-refl : (s : RoundState) (v : ℕ) → Trail s v s v
Trail-refl s v = here refl refl

pub Trail-trans :
    {s t : RoundState} {v w : ℕ} {u : RoundState} {x : ℕ}
    → Trail s v t w
    → Trail t w u x
    → Trail s v u x
Trail-trans {s} {v = v} a (here e f) = rw (e, f) a
Trail-trans a (next u x b h e) = next u x (Trail-trans a b) h e

-- Along a trail the version grows by at most the distance that the state covers.
pub Trail-version :
    {s : RoundState} {v : ℕ} {t : RoundState} {w : ℕ}
    → Trail s v t w
    → (v ≤ w) × (w + rank s ≤ v + rank t)
Trail-version {s} {t} (here e f) = rw e (omega arith)
Trail-version {s} {t} (next u x a h e) = omega (arith, Trail-version a, rank_lt u t h)

-- A trail from a terminal state stays where it is.
pub Trail-terminal :
    {s : RoundState} {v : ℕ} {t : RoundState} {w : ℕ}
    → is_terminal s ≡ true
    → Trail s v t w
    → (t ≡ s) × (w ≡ v)
Trail-terminal {s} {t} k (here e f) = (e, f)
Trail-terminal {s} {t} k (next u x a h e) =
    absurd (cc (terminal_stuck u t h, (Trail-terminal k a).0, k))
