-- ===== src/Persistence/Lifecycle/History.antt =====
-- The life of every round over any history of requests.
use deki_smpc_server.Prelude.{
  ℕ, ◌≤◌, Text, true, Option, none, some, List, [], ◌∷◌, ◌++◌, ◌≡◌, refl, ap, inl, inr, arith,
}
use deki_smpc_server.Prelude.Rows.{select_one}
use deki_smpc_server.Domain.States.{RoundState, created, registration_open, is_terminal}
use deki_smpc_server.Domain.States.Lifecycle.{Trail-refl, Trail-trans, Trail-version, rank}
use deki_smpc_server.Persistence.Schema.{Db, RoundRow, empty}
use deki_smpc_server.Persistence.Ensures.{Ensures, ensures_rules}
use deki_smpc_server.Persistence.Quiet.{quiet_rules}
use deki_smpc_server.Persistence.Statements.{round_of}
use deki_smpc_server.Persistence.Rounds.{register_round}
use deki_smpc_server.Persistence.Tx.{Tx, Result, ok, err}
use deki_smpc_server.Persistence.Retention.{purge_round}
use deki_smpc_server.Persistence.Methods.{IsRespected}
use deki_smpc_server.Persistence.Requests.{Request, Service, after, handle, run}
use deki_smpc_server.Persistence.Requests.Respects.{handle-respects, purge_cases}
use deki_smpc_server.Persistence.Lifecycle.{
  Steps, Evolves, RoundsStay, RoundsStay-IsPreorder, RoundsStep, RoundsStep-of, Continues,
  Continues-refl, Continues-trans, IsBorn,
}
use deki_smpc_server.Persistence.Lifecycle.Rules.{
  RoundsStay-AllowsQuiet, insert_audit-Stays, transition-Stays, insert_round-Stays,
  purge_round-Steps,
}

born : (row : RoundRow) → row.state ≡ registration_open → row.state_version ≡ 1 → IsBorn row
born row e f = rw (e, f) (Trail-refl registration_open 1)

register_round-Stays :
    (row : RoundRow) (participants : List Text) (actor : Text) (now : ℕ)
    → row.state ≡ registration_open
    → row.state_version ≡ 1
    → Ensures RoundsStay (register_round row participants actor now)
unfolding register_round
register_round-Stays row participants actor now e f =
    search (ensures_rules, quiet_rules, insert_audit-Stays, insert_round-Stays, born) depth 20

RoundsStay-IsRespected : IsRespected RoundsStay
RoundsStay-IsRespected = record {
  noted = λ round actor event now detail. insert_audit-Stays _;
  moves = transition-Stays;
  opens = register_round-Stays;
}

after-Steps : {A : Type 0} (m : Tx A) (s : Db) → Ensures RoundsStep m → RoundsStep s (after m s)
after-Steps {A} m s h = go (m s) refl
  where
    go : (r : Result (A × Db)) → m s ≡ r → RoundsStep s (elim r [ ok (a, t) ↦ t | err e ↦ s ])
    go (ok (a, t)) e = h.at s a t e
    go (err x) e = RoundsStep-of s s (RoundsStay-IsPreorder.same s)

handle-Steps : (v : Service) (r : Request) (s : Db) → RoundsStep s (handle v r s)
unfolding handle
handle-Steps v r s = elim (purge_cases RoundsStay r) [
  | inl other ↦ RoundsStep-of s (handle v r s) (handle-respects RoundsStay-IsRespected v r s other)
  | inr (id, now, is) ↦ rw is (after-Steps (purge_round id now) s (purge_round-Steps id now))
]

-- A round ended along a history: after some of the requests it stood in a terminal state, to which it
-- had moved along allowed transitions, and the next request removed it.
pub record HasEnded (v : Service) (rs : List Request) (s : Db) (id : Text) (a : RoundRow)
    : Type 0 where
  pub earlier : List Request
  pub purge : Request
  pub later : List Request
  pub split : rs ≡ earlier ++ purge ∷ later
  pub last : RoundRow
  pub there : round_of id (run v earlier s) ≡ some last
  pub continues : Continues a last
  pub terminal : is_terminal last.state ≡ true
  pub gone : round_of id (run v (earlier ++ purge ∷ []) s) ≡ none

module _ (v : Service) (r : Request) (rs : List Request) (s : Db) (id : Text) where
  -- It ended after the first request, and had moved on from `a` by that.
  ended_later :
      (a b : RoundRow)
      → Continues a b
      → HasEnded v rs (handle v r s) id b
      → HasEnded v (r ∷ rs) s id a
  unfolding run
  ended_later a b h k = record {
    earlier = r ∷ k.earlier;
    purge = k.purge;
    later = k.later;
    split = ap (λ xs. r ∷ xs) k.split;
    last = k.last;
    there = k.there;
    continues = Continues-trans h k.continues;
    terminal = k.terminal;
    gone = k.gone;
  }

  ended_now :
      (a : RoundRow)
      → round_of id s ≡ some a
      → round_of id (handle v r s) ≡ none
      → is_terminal a.state ≡ true
      → HasEnded v (r ∷ rs) s id a
  unfolding run
  ended_now a there gone over = record {
    earlier = [];
    purge = r;
    later = rs;
    split = refl;
    last = a;
    there = there;
    continues = Continues-refl a;
    terminal = over;
    gone = gone;
  }

  step-Evolves :
      (x y z : Option RoundRow)
      → round_of id s ≡ x
      → round_of id (handle v r s) ≡ y
      → Steps x y
      → Evolves (HasEnded v rs (handle v r s) id) y z
      → Evolves (HasEnded v (r ∷ rs) s id) x z
  step-Evolves none none none e f h k = tt
  step-Evolves none none (some c) e f h k = k
  step-Evolves none (some b) none e f h k = tt
  step-Evolves none (some b) (some c) e f h (inl k) = Trail-trans h k.trail
  step-Evolves none (some b) (some c) e f h (inr k) = k.1
  step-Evolves (some a) none none e f h k = ended_now a e f h
  step-Evolves (some a) none (some c) e f h k = inr (ended_now a e f h, k)
  step-Evolves (some a) (some b) none e f h k = ended_later a b h k
  step-Evolves (some a) (some b) (some c) e f h (inl k) = inl (Continues-trans h k)
  step-Evolves (some a) (some b) (some c) e f h (inr k) = inr (ended_later a b h k.0, k.1)

same-Evolves : (E : RoundRow → Type 0) (x : Option RoundRow) → Evolves E x x
same-Evolves E none = tt
same-Evolves E (some a) = inl (Continues-refl a)

pub run-Evolves :
    (v : Service) (rs : List Request) (s : Db) (id : Text)
    → Evolves (HasEnded v rs s id) (round_of id s) (round_of id (run v rs s))
unfolding run
run-Evolves v [] s id = same-Evolves (HasEnded v [] s id) (round_of id s)
run-Evolves v (r ∷ rs) s id =
    step-Evolves v r rs s id (round_of id s) (round_of id (handle v r s)) _ refl refl
      ((handle-Steps v r s).of id) (run-Evolves v rs (handle v r s) id)

rank_le : (s : RoundState) → rank s ≤ 7
rank_le created = omega arith
rank_le _ = omega arith

-- In a store that began empty every round has a version from 1 up to the rank of its state, so that
-- no round ever makes more than six transitions.
pub run_version_bound :
    (v : Service) (rs : List Request) (id : Text) (b : RoundRow)
    → round_of id (run v rs empty) ≡ some b
    → (1 ≤ b.state_version) × (b.state_version ≤ rank b.state) × (rank b.state ≤ 7)
unfolding round_of select_one
run_version_bound v rs id b found =
    let h : IsBorn b = rw found at (run-Evolves v rs empty id) in
    omega (arith, Trail-version h, rank_le b.state)
