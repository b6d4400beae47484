-- ===== src/Persistence/Requests/Respects.antt =====
-- A relation that the statements respect holds between the two ends of every history of requests.
use deki_smpc_server.Prelude.{ℕ, Text, List, [], ◌∷◌, ◌≡◌, refl, Bool, ◌⊎◌, inl, inr}
use deki_smpc_server.Persistence.Retention.{purge_round}
use deki_smpc_server.Persistence.Schema.{Db, Hashing, Response}
use deki_smpc_server.Persistence.Tx.{Tx, Result, ok, err}
use deki_smpc_server.Persistence.Ensures.{IsPreorder, Ensures}
use deki_smpc_server.Persistence.Quiet.{AllowsQuiet}
use deki_smpc_server.Persistence.KeyContext.{key_complete_tx, complete_key_setup}
use deki_smpc_server.Persistence.Methods
use deki_smpc_server.Persistence.Methods.{IsRespected}
use deki_smpc_server.Persistence.Requests.{
  Request, Service, after, handle, run, creates, reads, fails, aborts, records_slot,
  completes_key_setup, records_task, acknowledges_task, records_final_key, acknowledges_final_key,
  records_update, completes, claims, renews, completes_job, fails_job, expires, purges,
}

module _ {R : Db → Db → Type 0} ⦃p : IsPreorder R⦄ where
  after_holds : {A : Type 0} (m : Tx A) (s : Db) → Ensures R m → R s (after m s)
  after_holds {A} m s h = go (m s) refl
    where
      go : (r : Result (A × Db)) → m s ≡ r → R s (elim r [ ok (a, t) ↦ t | err e ↦ s ])
      go (ok (a, t)) e = h.at s a t e
      go (err x) e = p.same s

  key_setup_holds :
      (h : Hashing) (round_id client_id commitment idem_key digest : Text) (now later : ℕ) (s : Db)
      → Ensures R (key_complete_tx h round_id client_id commitment idem_key digest now later)
      → R s (complete_key_setup h round_id client_id commitment idem_key digest now later s).1
  unfolding complete_key_setup
  key_setup_holds h round_id client_id commitment idem_key digest now later s k =
      go (key_complete_tx h round_id client_id commitment idem_key digest now later s) refl
    where
      go :
          (r : Result ((Response × Bool) × Db))
          → key_complete_tx h round_id client_id commitment idem_key digest now later s ≡ r
          → R s (complete_key_setup h round_id client_id commitment idem_key digest now later s).1
      go (ok ((a, b), t)) e = rw (e, complete_key_setup) (k.at s (a, b) t e)
      go (err x) e = rw (e, complete_key_setup) (p.same s)

-- What a purge, which deletes a round, has to allow; other requests need nothing more.
abbrev pub RespectsPurge : (R : Db → Db → Type 0) → Request → Type 0
RespectsPurge R (purges r now) = Ensures R (purge_round r now)
RespectsPurge R _ = Unit

pub purge_cases :
    (R : Db → Db → Type 0) (r : Request)
    → RespectsPurge R r ⊎ ((id : Text) × (now : ℕ) × (r ≡ purges id now))
purge_cases R (purges id now) = inr (id, now, refl)
purge_cases R _ = inl tt

respects_purge :
    (R : Db → Db → Type 0)
    → ((id : Text) (now : ℕ) → Ensures R (purge_round id now))
    → (r : Request) → RespectsPurge R r
respects_purge R h (purges id now) = h id now
respects_purge R h _ = tt

module _ {R : Db → Db → Type 0} ⦃p : IsPreorder R⦄ ⦃q : AllowsQuiet R⦄ (k : IsRespected R) where
  pub handle-respects :
      (v : Service) (r : Request) (s : Db) → RespectsPurge R r → R s (handle v r s)
  unfolding handle
  handle-respects v (creates f p m h ps mh ttl ret a i d r now) s purge =
      after_holds _ s (Methods.create_round-Ensures k f p m h ps mh ttl ret a i d r now)
  handle-respects v (reads r x now later last) s h =
      after_holds _ s (Methods.get_round-Ensures k r x now later last)
  handle-respects v (fails r c e m now) s h =
      after_holds _ s (Methods.fail_round-Ensures k r c e m now)
  handle-respects v (aborts r a m i d now later) s h =
      after_holds _ s (Methods.abort_round-Ensures k r a m i d now later)
  handle-respects v (records_slot r c b x i d now later) s h =
      after_holds _ s (Methods.record_json_slot-Ensures k r c b x i d now later)
  handle-respects v (completes_key_setup r c x i d now later) s h =
      key_setup_holds v.hashing r c x i d now later s
        (Methods.key_complete_tx-Ensures k v.hashing r c x i d now later)
  handle-respects v (records_task r c t o x n g i d now) s h =
      after_holds _ s (Methods.record_task_artifact-Ensures k r c t o x n g i d now)
  handle-respects v (acknowledges_task r c t x i d now) s h =
      after_holds _ s (Methods.acknowledge_task-Ensures k r c t x i d now)
  handle-respects v (records_final_key r c o x n g i d now) s h =
      after_holds _ s (Methods.record_final_key-Ensures k r c o x n g i d now)
  handle-respects v (acknowledges_final_key r c x i d now later) s h =
      after_holds _ s (Methods.acknowledge_final_key-Ensures k r c x i d now later)
  handle-respects v (records_update r c o t i d j now later) s h =
      after_holds _ s (Methods.record_update-Ensures k r c o t i d j now later)
  handle-respects v (completes r c i d now later) s h =
      after_holds _ s (Methods.complete_participant-Ensures k r c i d now later)
  handle-respects v (claims l t now m) s h =
      after_holds _ s (Methods.claim_job-Ensures k v.leases l t now m)
  handle-respects v (renews j t l now) s h = after_holds _ s (Methods.renew_job-Ensures k j t l now)
  handle-respects v (completes_job j r t o g now later) s h =
      after_holds _ s (Methods.complete_job-Ensures k j r t o g now later)
  handle-respects v (fails_job j r t m b now) s h =
      after_holds _ s (Methods.fail_job-Ensures k j r t m b now)
  handle-respects v (expires ts m) s h =
      after_holds _ s (Methods.expire_rounds-Ensures k v.deadline_text ts m)
  handle-respects v (purges r now) s h = after_holds _ s h

  pub run-respects :
      ((id : Text) (now : ℕ) → Ensures R (purge_round id now))
      → (v : Service) (rs : List Request) (s : Db) → R s (run v rs s)
  unfolding run
  run-respects purging v [] s = p.same s
  run-respects purging v (r ∷ rs) s =
      p.chain s (handle v r s) (run v rs (handle v r s))
        (handle-respects v r s (respects_purge R purging r))
        (run-respects purging v rs (handle v r s))
