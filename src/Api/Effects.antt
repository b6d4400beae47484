-- ===== src/Api/Effects.antt =====
-- What the handlers without an upload may do to the database: a relation that the store's methods
-- ensure, and that what other processes do keeps to, holds between both ends of a handler.
use deki_smpc_server.Prelude.{
  ℕ, Text, Message, ◌≡◌, refl, true, not, ◌||◌, Option, none, some, ◌==◌, Bool-cases, inl, inr,
}
use deki_smpc_server.Persistence.Schema.{Db, RoundRow, key_artifact_rejected}
use deki_smpc_server.Persistence.Tx.{Error, Tx, Result, ok, err}
use deki_smpc_server.Persistence.Ensures.{IsPreorder, Ensures}
use deki_smpc_server.Persistence.Statements.{participant_of}
use deki_smpc_server.Persistence.Setup.{is_some}
use deki_smpc_server.Persistence.Rounds.{get_round, fail_round}
use deki_smpc_server.Api.{Answer, answered, refused, is_value_error}
use deki_smpc_server.Api.Rounds.{Member, transaction, finished, admit, round_for_member}
use deki_smpc_server.Api.Visits.{
  Visit, admitted, answer_of, call, with_row, visit, failure_answer, reject, answer_or_reject,
}

module _ (R : Db → Db → Type 0) ⦃p : IsPreorder R⦄ where
  pub transaction-holds : {A : Type 0} (m : Tx A) (s : Db) → Ensures R m → R s (transaction m s).1
  transaction-holds {A} m s h = go (m s) refl
    where
      go : (r : Result (A × Db)) → m s ≡ r → R s (finished s r).1
      go (ok (a, t)) e = h.at s a t e
      go (err x) e = p.same s

  pub answer_of-holds : {A : Type 0} (s : Db) (x : Result A × Db) → R s x.1 → R s (answer_of x).1
  answer_of-holds s (ok a, t) h = h
  answer_of-holds s (err e, t) h = h

  admit-holds :
      (round_id : Text) (member : Member) (meanwhile : Db → Db) (s : Db)
      (x : Result (Option RoundRow) × Db)
      → ((t : Db) → R t (meanwhile t))
      → R s x.1
      → R s (admit round_id member meanwhile x).1
  unfolding admit
  admit-holds round_id member meanwhile s (err e, t) calm h = h
  admit-holds round_id member meanwhile s (ok none, t) calm h = h
  admit-holds round_id member meanwhile s (ok (some r), t) calm h =
      let chained = p.chain s t (meanwhile t) h (calm t) in
      elim (Bool-cases (
        not (r.federation_id == member.federation_id)
        || not (is_some (participant_of round_id member.client_id (meanwhile t))))) [
          | inl out ↦ rw out chained
          | inr in_ ↦ rw in_ chained
        ]

  pub round_for_member-holds :
      (round_id : Text) (member : Member) (now later last : ℕ) (meanwhile : Db → Db) (s : Db)
      → ((t : Db) → R t (meanwhile t))
      → Ensures R (get_round round_id true now later last)
      → R s (round_for_member round_id member now later last meanwhile s).1
  unfolding round_for_member
  round_for_member-holds round_id member now later last meanwhile s calm h =
      admit-holds round_id member meanwhile s _ calm (transaction-holds _ s h)

  -- What other processes do between the steps of a visit.
  pub record IsCalm (t : Visit) : Type 0 where
    pub participant : (s : Db) → R s (t.before_participant s)
    pub method : (s : Db) → R s (t.before_method s)
    pub failure : (s : Db) → R s (t.before_failure s)

  pub call-holds :
      (A : Type 0) (t : Visit) (calm : IsCalm t) (m : Tx A) (s : Db)
      → Ensures R m
      → R s (call m t s).1
  unfolding call
  call-holds A t calm m s h =
      answer_of-holds s (transaction m (t.before_method s)) (
        p.chain s (t.before_method s) _ (calm.method s) (transaction-holds m (t.before_method s) h))

  module _ (A : Type 0) (round_id : Text) (member : Member) (t : Visit) (calm : IsCalm t) where
    with_row-holds :
        (f : RoundRow → Db → Answer A × Db) (s : Db) (x : Answer RoundRow × Db)
        → ((row : RoundRow) (u : Db) → R u (f row u).1)
        → R s x.1
        → R s (with_row f x).1
    unfolding with_row
    with_row-holds f s (refused e, u) h g = g
    with_row-holds f s (answered row, u) h g = p.chain s u _ g (h row u)

    pub visit-holds :
        (f : RoundRow → Db → Answer A × Db) (s : Db)
        → Ensures R (get_round round_id true t.now t.later t.last)
        → ((row : RoundRow) (u : Db) → R u (f row u).1)
        → R s (visit round_id member t f s).1
    unfolding visit
    visit-holds f s admits h = with_row-holds f s (admitted round_id member t s) h (
        round_for_member-holds round_id member t.now t.later t.last t.before_participant s
          calm.participant admits)

    failure_answer-holds :
        (s : Db) (x : Result (Unit {0}) × Db) → R s x.1 → R s (failure_answer {A = A} x).1
    unfolding failure_answer
    failure_answer-holds s (ok a, u) h = h
    failure_answer-holds s (err e, u) h = h

    pub reject-holds :
        (reason : Message) (s : Db)
        → Ensures R (fail_round round_id member.client_id key_artifact_rejected reason t.failed_at)
        → R s (reject {A = A} round_id member t reason s).1
    unfolding reject
    reject-holds reason s h =
        let fails = fail_round round_id member.client_id key_artifact_rejected reason t.failed_at in
        failure_answer-holds s (transaction fails (t.before_failure s)) (
          p.chain s (t.before_failure s) _ (calm.failure s)
            (transaction-holds fails (t.before_failure s) h))

    pub answer_or_reject-holds :
        (reason : Error → Message) (s : Db) (x : Result A × Db)
        → ((m : Message)
            → Ensures R (fail_round round_id member.client_id key_artifact_rejected m t.failed_at))
        → R s x.1
        → R s (answer_or_reject round_id member t reason x).1
    unfolding answer_or_reject
    answer_or_reject-holds reason s (ok a, u) fails h = h
    answer_or_reject-holds reason s (err e, u) fails h = elim (Bool-cases (is_value_error e)) [
      | inl is ↦ rw is (p.chain s u _ h (reject-holds (reason e) u (fails (reason e))))
      | inr other ↦ rw other h
    ]
