-- ===== src/Api/Server/Refinement.antt =====
-- The API refines the store: whatever the clients send, the database changes as by requests to the
-- store, which come from the handlers or from the processes beside them.
use deki_smpc_server.Prelude.{◌≡◌, refl, sym, ap, ◌∙◌, List, [], ◌∷◌, ◌++◌}
use deki_smpc_server.Persistence.Schema.{Db}
use deki_smpc_server.Persistence.Tx.{Tx}
use deki_smpc_server.Persistence.Ensures.{IsPreorder, Ensures}
use deki_smpc_server.Persistence.Requests.{Request, Service, after, handle, run}

-- The database after some requests to the store.
pub record Reaches (v : Service) (s t : Db) : Type 0 where
  pub requests : List Request
  pub run_is : t ≡ run v requests s

run-append :
    (v : Service) (rs qs : List Request) (s : Db) → run v (rs ++ qs) s ≡ run v qs (run v rs s)
unfolding run
run-append v [] qs s = refl
run-append v (r ∷ rs) qs s = run-append v rs qs (handle v r s)

Reaches-refl : (v : Service) (s : Db) → Reaches v s s
unfolding run
Reaches-refl v s = record { requests = []; run_is = refl }

Reaches-trans : (v : Service) (s t u : Db) → Reaches v s t → Reaches v t u → Reaches v s u
Reaches-trans v s t u a b = record {
  requests = a.requests ++ b.requests;
  run_is = b.run_is ∙ ap (run v b.requests) a.run_is ∙ sym (run-append v a.requests b.requests s);
}

instance pub Reaches-IsPreorder : {v : Service} → IsPreorder (Reaches v)
Reaches-IsPreorder {v} = record { same = Reaches-refl v; chain = Reaches-trans v }

pub run-Reaches : (v : Service) (rs : List Request) (s : Db) → Reaches v s (run v rs s)
run-Reaches v rs s = record { requests = rs; run_is = refl }

pub handle-Reaches : (v : Service) (r : Request) (s : Db) → Reaches v s (handle v r s)
unfolding run
handle-Reaches v r s = record { requests = r ∷ []; run_is = refl }

-- A method of the store that a request stands for.
pub request-Ensures :
    {A : Type 0} (v : Service) (m : Tx A) (r : Request)
    → ((s : Db) → handle v r s ≡ after m s)
    → Ensures (Reaches v) m
unfolding run
request-Ensures v m r h = record {
  at = λ s a t e. record { requests = r ∷ []; run_is = sym (h s ∙ rw (e, after) refl) };
}
