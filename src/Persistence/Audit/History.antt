-- ===== src/Persistence/Audit/History.antt =====
-- The audit log over any history of requests.
use deki_smpc_server.Prelude.{Text, List, ◌≡◌, refl, arith}
use deki_smpc_server.Prelude.Rows.{select_one, count_where}
use deki_smpc_server.Persistence.Schema.{empty}
use deki_smpc_server.Persistence.Statements.{round_of}
use deki_smpc_server.Persistence.Methods.{IsRespected}
use deki_smpc_server.Persistence.Requests.{Request, Service, run}
use deki_smpc_server.Persistence.Requests.Respects.{run-respects}
use deki_smpc_server.Persistence.Audit.{
  versions_of, up_to, version_of, IsAudited, KeepsAudit, KeepsAudit-IsPreorder,
}
use deki_smpc_server.Persistence.Audit.Rules.{KeepsAudit-AllowsQuiet, note-KeepsAudit}
use deki_smpc_server.Persistence.Audit.Moves.{transition-KeepsAudit}
use deki_smpc_server.Persistence.Audit.Ends.{register_round-KeepsAudit, purge_round-KeepsAudit}

KeepsAudit-IsRespected : IsRespected KeepsAudit
KeepsAudit-IsRespected = record {
  noted = note-KeepsAudit;
  moves = transition-KeepsAudit;
  opens = register_round-KeepsAudit;
}

empty-IsAudited : IsAudited empty
unfolding round_of select_one count_where versions_of
empty-IsAudited = record { unique = λ id. omega arith; recorded = λ id. refl }

pub run-IsAudited : (v : Service) (rs : List Request) → IsAudited (run v rs empty)
run-IsAudited v rs =
    (run-respects KeepsAudit-IsRespected purge_round-KeepsAudit v rs empty).keeps empty-IsAudited

-- After any requests to a store that began empty, the versions that the audit log records for a
-- round are exactly 1, 2, … up to the version of the round, in this order, and none if there is no
-- such round.
pub run-recorded :
    (v : Service) (rs : List Request) (id : Text)
    → let s = run v rs empty in versions_of id s.audit_events ≡ up_to (version_of (round_of id s))
run-recorded v rs id = (run-IsAudited v rs).recorded id
