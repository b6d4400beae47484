-- ===== src/Domain/Models/Tests.antt =====
-- A schema of two tensors.
use deki_smpc_server.Prelude.{◌≡◌, ◌↔◌, true, List, [], ◌∷◌}
use deki_smpc_server.Prelude.Rows.{any}
use deki_smpc_server.Domain.Models.{TensorPolicy, float32, int64}
use deki_smpc_server.Domain.Models.Validation.{
  TensorRequest, names_of, is_uploaded, accepts_entries,
}
use deki_smpc_server.Domain.Models.Names.{Ascends, accepts_entries_iff}

abbrev two_tensors : List TensorRequest
two_tensors =
    record { name = 97 ∷ []; shape = 2 ∷ []; dtype = float32; policy = TensorPolicy.mean }
    ∷ record { name = 98 ∷ []; shape = []; dtype = int64; policy = TensorPolicy.keep_local }
    ∷ []

accepts_entries_iff_example :
    (accepts_entries two_tensors ≡ true)
    ↔ (Ascends (names_of two_tensors) × (any (λ e. is_uploaded e.policy) two_tensors ≡ true))
accepts_entries_iff_example = accepts_entries_iff two_tensors
