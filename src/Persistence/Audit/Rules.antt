-- ===== src/Persistence/Audit/Rules.antt =====
-- Each statement of the store keeps the audit log complete.
use native.Mathlib.Numerals.{add-one}
use mathlib.Core.List.{append-nil}
use deki_smpc_server.Prelude.{
  ℕ, ◌+◌, Text, Option, none, some, List, [], ◌∷◌, ◌++◌, ◌≡◌, refl, ◌∙◌, arith, ◌==◌, if◌then◌else◌,
}
use deki_smpc_server.Persistence.Schema.{Db, AuditRow, Actor, Event, Detail}
use deki_smpc_server.Persistence.Statements.{round_of, insert_audit, note, plain_event}
use deki_smpc_server.Persistence.Ensures.{Ensures}
use deki_smpc_server.Persistence.Quiet.{AllowsQuiet}
use deki_smpc_server.Persistence.Audit.{versions_of, up_to, KeepsAudit, KeepsAudit-IsPreorder}

abbrev pub version_list : Option ℕ → List ℕ
version_list none = []
version_list (some v) = v ∷ []

pub versions_of-append :
    (id : Text) (xs : List AuditRow) (a : AuditRow)
    → versions_of id (xs ++ a ∷ [])
      ≡ versions_of id xs ++ (if a.round_id == id then version_list a.state_version else [])
unfolding versions_of
versions_of-append id [] a = ground arith
versions_of-append id (x ∷ xs) a = ground (arith, versions_of-append id xs a)

pub versions_of-append_other :
    (id : Text) (xs : List AuditRow) (a : AuditRow)
    → (if a.round_id == id then version_list a.state_version else []) ≡ []
    → versions_of id (xs ++ a ∷ []) ≡ versions_of id xs
versions_of-append_other id xs a e =
    versions_of-append id xs a ∙ (rw e (append-nil (versions_of id xs)))

pub up_to-add_one : (n : ℕ) → up_to (n + 1) ≡ up_to n ++ (n + 1) ∷ []
up_to-add_one n = rw add-one

pub same_log : (s t : Db) → t.rounds ≡ s.rounds → t.audit_events ≡ s.audit_events → KeepsAudit s t
unfolding round_of
same_log s t e f = record {
  keeps =
      λ h. record { unique = λ id. rw e (h.unique id); recorded = λ id. rw (e, f) (h.recorded id) };
}

instance pub KeepsAudit-AllowsQuiet : AllowsQuiet KeepsAudit
KeepsAudit-AllowsQuiet = record { quiet = same_log }

logged :
    (s t : Db) (row : AuditRow)
    → row.state_version ≡ none
    → t.rounds ≡ s.rounds
    → t.audit_events ≡ s.audit_events ++ row ∷ []
    → KeepsAudit s t
unfolding round_of
logged s t row silent e f = record {
  keeps = λ h. record {
    unique = λ id. rw e (h.unique id);
    recorded = λ id.
        rw (e, f) (versions_of-append_other id s.audit_events row (ground arith) ∙ h.recorded id);
  };
}

pub note-KeepsAudit :
    (round : Text) (actor : Actor) (event : Event) (now : ℕ) (detail : Option Detail)
    → Ensures KeepsAudit (note round actor event now detail)
unfolding insert_audit
note-KeepsAudit round actor event now detail = record {
  at = λ s a t e.
      logged s t (plain_event round actor event now detail) refl (ground arith) (ground arith);
}
