-- ===== src/Worker/Maintenance/Purges.antt =====
-- The purge loop of `run_maintenance`, where no other process acts on the store meanwhile.
use deki_smpc_server.Prelude.{
  ℕ, zero, suc, ◌+◌, ◌≤◌, ◌≡◌, refl, ap, ◌∙◌, ◌⊎◌, inl, inr, Text, false, ◌==◌, Bool-cases, none,
  List, [], ◌∷◌, ◌++◌, arith, length,
}
use deki_smpc_server.Persistence.Schema.{Db}
use deki_smpc_server.Persistence.Statements.{round_of}
use deki_smpc_server.Persistence.Tx.{Tx, ok}
use deki_smpc_server.Persistence.Retention.{purge_round}
use deki_smpc_server.Storage.{Disk, delete}
use deki_smpc_server.Worker.Runs.{World, got, return, and_then, transact, read_clock, ◌>>=◌}
use deki_smpc_server.Worker.Maintenance.{delete_files, remove_files, purge_all}
use deki_smpc_server.Worker.Maintenance.Rounds.{MayGo, purge_round_total}

-- Is a round none of those?
abbrev pub IsOther : Text → List (Text × List Text) → Type 0
IsOther other [] = Unit
IsOther other ((id, paths) ∷ cs) = (id == other ≡ false) × IsOther other cs

-- Every other round is there as before, or is not there as before.
abbrev pub OthersStay : List (Text × List Text) → Db → Db → Type 0
OthersStay cs s u = (other : Text) → IsOther other cs → round_of other u ≡ round_of other s

abbrev pub AllMayGo : ℕ → List (Text × List Text) → Db → Type 0
AllMayGo now [] s = Unit
AllMayGo now ((id, paths) ∷ cs) s = MayGo now (round_of id s) × AllMayGo now cs s

abbrev pub AllGone : List (Text × List Text) → Db → Type 0
AllGone [] s = Unit
AllGone ((id, paths) ∷ cs) s = (round_of id s ≡ none) × AllGone cs s

-- A clock that reads a time or later, for a number of readings.
abbrev pub NotBefore : ℕ → ℕ → List ℕ → Type 0
NotBefore now zero times = Unit
NotBefore now (suc n) [] = ⊥
NotBefore now (suc n) (t ∷ times) = (now ≤ t) × NotBefore now n times

abbrev pub paths_of : List (Text × List Text) → List Text
paths_of [] = []
paths_of ((id, paths) ∷ cs) = paths ++ paths_of cs

abbrev pub alone : Db → Disk → List ℕ → World
alone s disk times = record { db = s; disk = disk; times = times; others = [] }

still_may :
    (now : ℕ) (gone id : Text) (s u : Db)
    → round_of gone u ≡ none
    → ((other : Text) → gone == other ≡ false → round_of other u ≡ round_of other s)
    → MayGo now (round_of id s)
    → MayGo now (round_of id u)
still_may now gone id s u e h m = elim (Bool-cases (gone == id)) [
  | inl same ↦ let is : gone ≡ id = ground arith in let e = rw is at e in rw e tt
  | inr differ ↦ rw (h id differ) m
]

all_still_may :
    (now : ℕ) (gone : Text) (cs : List (Text × List Text)) (s u : Db)
    → round_of gone u ≡ none
    → ((other : Text) → gone == other ≡ false → round_of other u ≡ round_of other s)
    → AllMayGo now cs s
    → AllMayGo now cs u
all_still_may now gone [] s u e h m = tt
all_still_may now gone ((id, paths) ∷ cs) s u e h m =
    (still_may now gone id s u e h m.0, all_still_may now gone cs s u e h m.1)

-- A round that is gone stays so, whether it is listed again or not.
still_gone :
    (id : Text) (cs : List (Text × List Text)) (s u : Db)
    → AllGone cs u
    → OthersStay cs s u
    → round_of id s ≡ none
    → round_of id u ≡ none
still_gone id cs s u all h e = elim (listed id cs) [
  | inl other ↦ h id other ∙ e
  | inr found ↦ found u all
]
  where
    listed :
        (id : Text) (cs : List (Text × List Text))
        → IsOther id cs ⊎ ((u : Db) → AllGone cs u → round_of id u ≡ none)
    listed id [] = inl tt
    listed id ((first, paths) ∷ rest) = elim (Bool-cases (first == id)) [
      | inl same ↦ inr (λ u all. let is : first ≡ id = ground arith in rw (← is) all.0)
      | inr differ ↦ elim (listed id rest) [
        | inl other ↦ inl (differ, other)
        | inr found ↦ inr (λ u all. found u all.1)
      ]
    ]

delete_files-append :
    (xs ys : List Text) (disk : Disk)
    → delete_files (xs ++ ys) disk ≡ delete_files ys (delete_files xs disk)
unfolding delete_files
delete_files-append [] ys disk = refl
delete_files-append (x ∷ xs) ys disk = delete_files-append xs ys (delete x disk)

transact-alone :
    (m : Tx Unit) (s u : Db) (disk : Disk) (times : List ℕ)
    → m s ≡ ok (tt, u)
    → transact m (alone s disk times) ≡ (got tt, alone u disk times)
unfolding transact
transact-alone m s u disk times e = rw (e, transact) refl

purge_all_step :
    (id : Text) (paths : List Text) (cs : List (Text × List Text)) (n t : ℕ) (s u : Db)
    (disk : Disk) (times : List ℕ)
    → purge_round id t s ≡ ok (tt, u)
    → purge_all ((id, paths) ∷ cs) n (alone s disk (t ∷ times))
      ≡ purge_all cs (n + 1) (alone u (delete_files paths disk) times)
unfolding purge_all remove_files read_clock ◌>>=◌
purge_all_step id paths cs n t s u disk times e =
    ap (λ r. and_then r (λ _. purge_all cs (n + 1)))
      (transact-alone (purge_round id t) s u (delete_files paths disk) times e)

-- Where each of the rounds may go, and no other process acts meanwhile, the loop ends: it counts
-- the rounds, all of which are gone, with the files; every other round is as before.
pub purge_all_total :
    (now : ℕ) (cs : List (Text × List Text)) (n : ℕ) (s : Db) (disk : Disk) (times : List ℕ)
    → AllMayGo now cs s
    → NotBefore now (length cs) times
    → (u : Db) × (rest : List ℕ) × (purge_all cs n (alone s disk times)
        ≡ (got (n + length cs), alone u (delete_files (paths_of cs) disk) rest))
      × AllGone cs u
      × OthersStay cs s u
unfolding purge_all delete_files return
purge_all_total now [] n s disk times may clock =
    let e : n + 0 ≡ n = omega arith in (s, times, rw e refl, tt, λ other differ. refl)
purge_all_total now ((id, paths) ∷ cs) n s disk [] may clock = absurd clock
purge_all_total now ((id, paths) ∷ cs) n s disk (t ∷ times) may clock =
    let (v, e, gone, only) = purge_round_total now t id s clock.0 may.0 in
    let (u, rest, f, all, also) =
      purge_all_total now cs (n + 1) v (delete_files paths disk) times
        (all_still_may now id cs s v gone only may.1) clock.1 in
    let counted : n + suc (length cs) ≡ n + 1 + length cs = omega arith in
    (
      u,
      rest,
      purge_all_step id paths cs n t s v disk times e
          ∙ rw (f, counted, delete_files-append paths (paths_of cs) disk) refl,
      (still_gone id cs v u all also gone, all),
      λ other (differ, rest). also other rest ∙ only other differ,
    )
