-- ===== src/Persistence/Members/Startup.antt =====
-- `initialize`, and whom a token finds after it.
use deki_smpc_server.Prelude.{ℕ, zero, suc, ◌+◌, ◌≤◌, ◌≡◌, Option, none, some, arith, if◌then◌else◌}
use deki_smpc_server.Persistence.Members.{
  Members, Entry, Federations, InitError, Encoding, offered, pause, Weather, Initialized,
  attempt_once, retry, attempts, initialize, member_row, member_for_token, member,
}
use deki_smpc_server.Persistence.Members.Tables.{flag_of}
use deki_smpc_server.Persistence.Members.Enrolment.{Keeps}

module _ (k : Encoding) (w : Weather) (federations : Federations) where
  -- The attempt that succeeded, from a table like the first.
  abbrev Succeeded : Members → Initialized → Type 0
  Succeeded ms r =
      r.error ≡ none
      → (attempt : ℕ) × (s : Members) × Keeps ms s
        × Keeps ms r.members
        × (attempt_once k w federations attempt s ≡ (none, r.members))

  -- What the configured members are found by, on the table `t`.
  abbrev pub IsFound : Entry → Members → Members → Type 0
  IsFound e ms t =
      (member_for_token k e.config.token t ≡ (
        if flag_of (member_row e.federation_id e.client_id ms) then none else some (offered k e)))
      × (member e.federation_id e.client_id t ≡ (
          if flag_of (member_row e.federation_id e.client_id ms) then none else some (offered k e)))

abbrev total : ℕ → ℕ → ℕ
total zero attempt = 0
total (suc left) attempt = pause attempt + total left (attempt + 1)

module _ (k : Encoding) (w : Weather) (federations : Federations) where
  retry_slept :
      (r : Option InitError × Members) (slept more : ℕ) (again : Initialized)
      → again.slept ≤ slept + more
      → (retry k w federations r slept again).slept ≤ slept + more
  unfolding retry
  retry_slept (none, ms) slept more again h = omega arith
  retry_slept (some x, ms) slept more again h = ground arith

  attempts_slept :
      (left attempt slept : ℕ) (ms : Members)
      → (attempts k w federations left attempt slept ms).slept ≤ slept + total left attempt
  unfolding attempts
  attempts_slept zero attempt slept ms = omega arith
  attempts_slept (suc left) attempt slept ms =
      retry_slept (attempt_once k w federations attempt ms) slept _ _ (
        omega (
          arith,
          attempts_slept left (attempt + 1) (slept + pause attempt)
              (w.meanwhile attempt (attempt_once k w federations attempt ms).1),
        ))

  -- Whatever SQLite raises, `initialize` ends, and it has slept for 15.55 seconds at most.
  pub initialize_slept : (ms : Members) → (initialize k w federations ms).slept ≤ 15550
  unfolding initialize pause
  initialize_slept ms = omega (arith, attempts_slept 19 0 0 ms)
