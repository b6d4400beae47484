-- ===== src/Persistence/Audit.antt =====
-- The audit log against the rounds: the versions that it records for a round are 1, 2, … up to the
-- version of the round, each once and in order.
pub mod Rules
pub mod Moves
pub mod Ends
pub mod History
use deki_smpc_server.Prelude.{
  ℕ, zero, suc, ◌≤◌, Text, Bool, Option, none, some, List, [], ◌∷◌, ◌++◌, ◌≡◌, ◌==◌, if◌then◌else◌,
}
use deki_smpc_server.Prelude.Rows.{count_where}
use deki_smpc_server.Persistence.Schema.{Db, RoundRow, AuditRow}
use deki_smpc_server.Persistence.Statements.{is_round, round_of}
use deki_smpc_server.Persistence.Ensures.{IsPreorder}

-- The versions in the events of one round, in the order of the log.
pub versions_of : Text → List AuditRow → List ℕ
versions_of id [] = []
versions_of id (a ∷ events) =
    let rest = versions_of id events in
    if a.round_id == id then elim a.state_version [ none ↦ rest | some v ↦ v ∷ rest ] else rest

-- 1, 2, …, n.
abbrev pub up_to : ℕ → List ℕ
up_to zero = []
up_to (suc n) = up_to n ++ suc n ∷ []

abbrev pub version_of : Option RoundRow → ℕ
version_of none = 0
version_of (some r) = r.state_version

pub record IsAudited (s : Db) : Type 0 where
  pub unique : (id : Text) → count_where (is_round id) s.rounds ≤ 1
  pub recorded : (id : Text) → versions_of id s.audit_events ≡ up_to (version_of (round_of id s))

-- A step that keeps the log complete.
pub record KeepsAudit (s t : Db) : Type 0 where
  pub keeps : IsAudited s → IsAudited t

instance pub KeepsAudit-IsPreorder : IsPreorder KeepsAudit
KeepsAudit-IsPreorder = record {
  same = λ s. record { keeps = λ h. h };
  chain = λ s t u a b. record { keeps = λ h. b.keeps (a.keeps h) };
}
