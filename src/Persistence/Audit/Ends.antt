-- ===== src/Persistence/Audit/Ends.antt =====
-- The two ends of a round in the audit log: its registration, and its purge.
use deki_smpc_server.Prelude.{
  ℕ, ◌+◌, ◌≤◌, Text, false, some, List, [], ◌∷◌, ◌++◌, ◌≡◌, refl, ◌∙◌, inl, inr, arith, ◌==◌,
  ==_self, if◌then◌else◌, Bool-cases, Option-cases,
}
use deki_smpc_server.Prelude.Rows.{select_one, count_where, delete_where, any}
use deki_smpc_server.Prelude.Rows.Laws.{
  select_one-append, select_one-append_other, select_one-none, select_one-delete_self,
  select_one-delete_ne,
}
use deki_smpc_server.Prelude.Rows.Counts.{count-append, count_none, count-delete-le}
use deki_smpc_server.Domain.States.{registration_open}
use deki_smpc_server.Persistence.Schema.{Db, RoundRow, AuditRow}
use deki_smpc_server.Persistence.Rounds.{register_round, created_event, new_participant}
use deki_smpc_server.Persistence.Retention.{delete_round, purge_round}
use deki_smpc_server.Persistence.Tx.{ok, for_each, ◌>>=◌}
use deki_smpc_server.Persistence.Statements.{
  is_round, round_of, insert_audit, insert_round, insert_participant,
}
use deki_smpc_server.Persistence.Ensures.{IsPreorder, Ensures, >>=-eq-ok, Ensures-for_each}
use deki_smpc_server.Persistence.Quiet.{AllowsQuiet, insert_participant-Quiet}
use deki_smpc_server.Persistence.Audit.{
  versions_of, up_to, version_of, IsAudited, KeepsAudit, KeepsAudit-IsPreorder,
}
use deki_smpc_server.Persistence.Audit.Rules.{
  versions_of-append, versions_of-append_other, same_log, KeepsAudit-AllowsQuiet,
}

-- The part of a registration between its two inserts changes neither the rounds nor the log.
pub record SameLog (s t : Db) : Type 0 where
  rounds : t.rounds ≡ s.rounds
  log : t.audit_events ≡ s.audit_events

instance SameLog-IsPreorder : IsPreorder SameLog
SameLog-IsPreorder = record {
  same = λ s. record { rounds = refl; log = refl };
  chain = λ s t u h k. record { rounds = k.rounds ∙ h.rounds; log = k.log ∙ h.log };
}

instance SameLog-AllowsQuiet : AllowsQuiet SameLog
SameLog-AllowsQuiet = record { quiet = λ s t e f. record { rounds = e; log = f } }

participants-SameLog :
    (row : RoundRow) (participants : List Text) (now : ℕ)
    → Ensures SameLog (
        for_each participants
          (λ client. insert_participant (new_participant row.round_id now client)))
participants-SameLog row participants now =
    Ensures-for_each participants _
      (λ client. insert_participant-Quiet (new_participant row.round_id now client))

register_log :
    (row : RoundRow) (participants : List Text) (actor : Text) (now : ℕ) (s : Db) (a : Unit)
    (t : Db)
    → register_round row participants actor now s ≡ ok (a, t)
    → (any (is_round row.round_id) s.rounds ≡ false)
      × (t.rounds ≡ s.rounds ++ row ∷ [])
      × (t.audit_events ≡ s.audit_events ++ created_event row.round_id actor now ∷ [])
unfolding register_round insert_round insert_audit
register_log row participants actor now s a t e =
    let (x, u, first, rest) = >>=-eq-ok (insert_round row) _ s a t e in
    let (y, w, middle, last) = >>=-eq-ok (for_each participants _) _ u a t rest in
    let kept = (participants-SameLog row participants now).at u y w middle in
    (ground arith, ground (arith, kept.rounds), ground (arith, kept.log))

register_round-IsAudited :
    (row : RoundRow) (event : AuditRow) (s t : Db)
    → row.state_version ≡ 1
    → event.round_id ≡ row.round_id
    → event.state_version ≡ some 1
    → any (is_round row.round_id) s.rounds ≡ false
    → t.rounds ≡ s.rounds ++ row ∷ []
    → t.audit_events ≡ s.audit_events ++ event ∷ []
    → IsAudited s
    → IsAudited t
unfolding round_of
register_round-IsAudited row event s t first named versioned absent er el h = record {
  unique = λ i. rw (er, count-append) (count_bound i);
  recorded = λ i. rw (er, el) (recorded_in i);
}
  where
    count_bound :
        (i : Text) → count_where (is_round i) s.rounds + (if is_round i row then 1 else 0) ≤ 1
    count_bound i = elim (Bool-cases (is_round i row)) [
      | inl hit ↦
          let e : i ≡ row.round_id = ground arith in
          rw (e, count_none (is_round row.round_id) s.rounds absent) (ground arith)
      | inr miss ↦ ground (arith, h.unique i)
    ]

    recorded_in :
        (i : Text)
        → versions_of i (s.audit_events ++ event ∷ [])
          ≡ up_to (version_of (select_one (is_round i) (s.rounds ++ row ∷ [])))
    recorded_in i = elim (Bool-cases (is_round i row)) [
      | inl hit ↦
          let e : i ≡ row.round_id = ground arith in
          rw (e, versions_of-append, named, ==_self row.round_id, versioned)
            (rw
              (
                h.recorded row.round_id,
                select_one-none (is_round row.round_id) s.rounds absent,
                select_one-append (is_round row.round_id) row s.rounds absent,
                ==_self row.round_id,
                first,
              )
              refl)
      | inr miss ↦
          rw (select_one-append_other (is_round i) row s.rounds miss)
            (versions_of-append_other i s.audit_events event (rw (named, miss)) ∙ h.recorded i)
    ]

pub register_round-KeepsAudit :
    (row : RoundRow) (participants : List Text) (actor : Text) (now : ℕ)
    → row.state ≡ registration_open
    → row.state_version ≡ 1
    → Ensures KeepsAudit (register_round row participants actor now)
register_round-KeepsAudit row participants actor now opened first = record {
  at = λ s a t e.
      let (absent, er, el) = register_log row participants actor now s a t e in
      record {
        keeps =
            register_round-IsAudited row (created_event row.round_id actor now) s t first refl refl
              absent er el;
      };
}

versions_of-delete_self :
    (id : Text) (xs : List AuditRow) → versions_of id (delete_where (λ r. r.round_id == id) xs) ≡ []
unfolding versions_of delete_where
versions_of-delete_self id [] = refl
versions_of-delete_self id (x ∷ xs) = ground (arith, versions_of-delete_self id xs)

versions_of-delete_ne :
    (i id : Text) (xs : List AuditRow)
    → (id == i) ≡ false
    → versions_of i (delete_where (λ r. r.round_id == id) xs) ≡ versions_of i xs
unfolding versions_of delete_where
versions_of-delete_ne i id [] ne = refl
versions_of-delete_ne i id (x ∷ xs) ne = ground (arith, versions_of-delete_ne i id xs ne)

delete_round-KeepsAudit : (id : Text) (s : Db) → KeepsAudit s (delete_round id s)
unfolding delete_round round_of
delete_round-KeepsAudit id s = record {
  keeps = λ h. record {
    unique = λ i. omega (arith, h.unique i, count-delete-le (is_round i) (is_round id) s.rounds);
    recorded = λ i. elim (Bool-cases (id == i)) [
      | inl hit ↦
          let e : i ≡ id = ground arith in
          rw
            (
              e,
              versions_of-delete_self id s.audit_events,
              select_one-delete_self (is_round id) (is_round id) s.rounds (λ x h. h),
            )
            refl
      | inr miss ↦
          rw
            (
              versions_of-delete_ne i id s.audit_events miss,
              select_one-delete_ne (is_round i) (is_round id) s.rounds (λ x h. ground arith),
            )
            (h.recorded i)
    ];
  };
}

pub purge_round-KeepsAudit : (id : Text) (now : ℕ) → Ensures KeepsAudit (purge_round id now)
unfolding purge_round ◌>>=◌
purge_round-KeepsAudit id now = record {
  at = λ s a t e. elim (Option-cases (round_of id s)) [
    | inl missing ↦ same_log s t (ground arith) (ground arith)
    | inr (r, found) ↦
        KeepsAudit-IsPreorder.chain s (delete_round id s) t (delete_round-KeepsAudit id s)
          (same_log (delete_round id s) t (ground arith) (ground arith))
  ];
}
