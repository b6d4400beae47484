-- ===== src/Api/FinalKeys/Inspected.antt =====
-- What the checks of a stored final key find.
use deki_smpc_server.Prelude.{
  ◌-◌, ◌≡◌, sym, ap, ◌∙◌, ◌||◌, inl, inr, Text, true, not, some, ◌++◌, ◌==◌, take, length, arith,
  Bool-cases, Option-cases,
}
use deki_smpc_server.Persistence.Schema.{RoundRow, TreePlanRow, StoredObject}
use deki_smpc_server.Storage.{Bytes, final, Disk}
use deki_smpc_server.Storage.Reading.{ciphertext_digest}
use deki_smpc_server.Api.Rounds.{Member}
use deki_smpc_server.Api.Visits.{Visit}
use deki_smpc_server.Api.Ciphertexts.{digest_of}
use deki_smpc_server.Api.Signing.{
  FinalKeyValue, final_key_value, is_signed, signed_final, final_key_purpose,
}
use deki_smpc_server.Api.FinalKeys.{KeyMetadata, FinalUpload, FinalService, fit, weigh, inspect}

module _ (v : FinalService) (round_id : Text) (member : Member) (u : FinalUpload) (t : Visit) where
  -- What an accepted value has passed.
  abbrev pub IsFit : RoundRow → TreePlanRow → Text → StoredObject → Bytes → FinalKeyValue → Type 0
  IsFit row plan signature o content value =
      (nonce : Bytes) × (nonce_text : Text) × (length nonce ≡ 12)
      × (value
          ≡ final_key_value row plan.plan_hash plan.plan.root_client_id nonce_text
              (v.sha256 (nonce ++ take (length content - 16) content)) o.size)
      × (is_signed v.codec row member final_key_purpose (signed_final value) signature ≡ true)

  weigh_fit :
      (row : RoundRow) (md : KeyMetadata) (signature : Text) (nonce : Bytes)
      (x value : FinalKeyValue)
      → weigh v round_id member u t row md signature nonce x ≡ fit value
      → (x ≡ value)
        × (length nonce ≡ 12)
        × (is_signed v.codec row member final_key_purpose (signed_final value) signature ≡ true)
  unfolding weigh
  weigh_fit row md signature nonce x value h =
      elim (Bool-cases (not (length nonce == 12) || not (md.equals x))) [
        | inl differs ↦ let h = rw differs at h in absurd (cc)
        | inr same ↦
            elim (Bool-cases
              (is_signed v.codec row member final_key_purpose (signed_final x) signature)) [
                | inl signed ↦
                    let h = rw (same, signed) at h in
                    let is : x ≡ value = cc in (is, ground arith, rw (← is) signed)
                | inr unsigned ↦ let h = rw (same, unsigned) at h in absurd (cc)
              ]
      ]

  pub inspect-IsFit :
      (row : RoundRow) (plan : TreePlanRow) (md : KeyMetadata) (signature : Text) (o : StoredObject)
      (disk : Disk) (content : Bytes) (value : FinalKeyValue)
      → disk (final o.path) ≡ some content
      → inspect v round_id member u t row plan md signature o disk ≡ fit value
      → IsFit row plan signature o content value
  unfolding inspect
  inspect-IsFit row plan md signature o disk content value there h = elim (Option-cases md.nonce) [
    | inl missing ↦ let h = rw (missing, inspect) at h in absurd (cc)
    | inr (nonce, n) ↦ elim (Option-cases (ciphertext_digest v.sha256 content nonce)) [
      | inl short ↦ let h = rw (n, there, short, inspect) at h in absurd (cc)
      | inr (d, e) ↦
          let h = rw (n, there, e, inspect) at h in
          let expected : Text → FinalKeyValue = λ x.
            final_key_value row plan.plan_hash plan.plan.root_client_id md.nonce_text x o.size in
          let (same, twelve, signed) = weigh_fit row md signature nonce (expected d) value h in
          (
            nonce,
            md.nonce_text,
            twelve,
            sym same ∙ ap expected (digest_of v.sha256 content nonce d e),
            signed,
          )
    ]
  ]
