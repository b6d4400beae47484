-- ===== src/Persistence/Members/Enrolment.antt =====
-- What `initialize` makes of the table of members: whom a token finds afterwards.
use deki_smpc_server.Prelude.{
  ℕ, ◌+◌, ◌≡◌, refl, ap, ◌∙◌, inl, inr, Text, Bool, false, not, ◌&&◌, ◌||◌, Option, none, some,
  List, [], ◌∷◌, ◌++◌, ltb, ◌==◌, arith, length, Bool-cases, Option-cases,
}
use deki_smpc_server.Prelude.Rows.{any}
use deki_smpc_server.Persistence.Members.{
  Members, Entry, Federations, entries, InitError, Encoding, offered, Step, done, stopped, proceed,
  upsert_member, enroll, enroll_all, initialize_once, member_row,
}
use deki_smpc_server.Persistence.Members.Tables.{
  IsUnique, flag_of, upsert-IsUnique, upsert-other, upsert-own,
}

-- The constraints hold still, and nobody's flag `revoked` has changed.
pub record Keeps (ms ms' : Members) : Type 0 where
  pub unique : IsUnique ms → IsUnique ms'
  pub flag : (f c : Text) → flag_of (member_row f c ms') ≡ flag_of (member_row f c ms)

pub Keeps-refl : (ms : Members) → Keeps ms ms
Keeps-refl ms = record { unique = λ u. u; flag = λ f c. refl }

pub Keeps-trans : {a b c : Members} → Keeps a b → Keeps b c → Keeps a c
Keeps-trans k l = record {
  unique = λ u. l.unique (k.unique u);
  flag = λ f c. l.flag f c ∙ k.flag f c;
}

-- The entry is for that member.
abbrev pub is_for : Text → Text → Entry → Bool
is_for f c e = e.federation_id == f && e.client_id == c

module _ (k : Encoding) where
  enroll_done :
      (fault : Option InitError) (e : Entry) (ms ms' : Members)
      → enroll k fault e ms ≡ done ms'
      → upsert_member (offered k e) ms ≡ done ms'
  unfolding enroll
  enroll_done fault e ms ms' h =
      elim (Option-cases (k.decoded_length e.config.signing_public_key)) [
        | inl bad ↦ let h = rw (bad, enroll) at h in absurd (cc)
        | inr (n, good) ↦ elim (Bool-cases (ltb (length e.config.token) 32 || not (n == 32))) [
          | inl weak ↦ let h = rw (good, weak, enroll) at h in absurd (cc)
          | inr strong ↦ elim (Option-cases fault) [
            | inl calm ↦ let h = rw (good, strong, calm, enroll) at h in h
            | inr (x, broke) ↦ let h = rw (good, strong, broke, enroll) at h in absurd (cc)
          ]
        ]
      ]

  upsert-Keeps :
      (e : Entry) (ms ms' : Members) → upsert_member (offered k e) ms ≡ done ms' → Keeps ms ms'
  unfolding flag_of
  upsert-Keeps e ms ms' h = record {
    unique = upsert-IsUnique (offered k e) ms ms' h;
    flag = λ f c. elim (Bool-cases (is_for f c e)) [
      | inr other ↦ ap flag_of (upsert-other (offered k e) ms ms' h f c other)
      | inl is ↦
          let f_is : e.federation_id ≡ f = ground arith in
          let c_is : e.client_id ≡ c = ground arith in
          let own = ap flag_of (upsert-own (offered k e) ms ms' h refl) in
          let own = rw (f_is, c_is) at own in own
    ];
  }

  proceed-Keeps :
      (fault : Option InitError) (e : Entry) (ms : Members) (r : Step)
      (go : Members → Option InitError × Members)
      → enroll k fault e ms ≡ r
      → ((t : Members) → Keeps t (go t).1)
      → Keeps ms (proceed ms r go).1
  unfolding proceed
  proceed-Keeps fault e ms (stopped x) go h rest = Keeps-refl ms
  proceed-Keeps fault e ms (done t) go h rest =
      Keeps-trans (upsert-Keeps e ms t (enroll_done fault e ms t h)) (rest t)

  enroll_all-Keeps :
      (faults : ℕ → Option InitError) (i : ℕ) (es : List Entry) (ms : Members)
      → Keeps ms (enroll_all k faults i es ms).1
  unfolding enroll_all
  enroll_all-Keeps faults i [] ms = Keeps-refl ms
  enroll_all-Keeps faults i (e ∷ es) ms =
      proceed-Keeps (faults i) e ms (enroll k (faults i) e ms) (enroll_all k faults (i + 1) es) refl
        (enroll_all-Keeps faults (i + 1) es)

  -- The loop got past an entry.
  proceed-none :
      (fault : Option InitError) (e : Entry) (ms t : Members) (r : Step)
      (go : Members → Option InitError × Members)
      → enroll k fault e ms ≡ r
      → proceed ms r go ≡ (none, t)
      → (ms' : Members) × (upsert_member (offered k e) ms ≡ done ms') × (go ms' ≡ (none, t))
  unfolding proceed
  proceed-none fault e ms t (stopped x) go h p = absurd (cc)
  proceed-none fault e ms t (done ms') go h p = (ms', enroll_done fault e ms ms' h, p)

  enroll_all-other :
      (faults : ℕ → Option InitError) (i : ℕ) (es : List Entry) (ms t : Members) (f c : Text)
      → any (is_for f c) es ≡ false
      → enroll_all k faults i es ms ≡ (none, t)
      → member_row f c t ≡ member_row f c ms
  unfolding enroll_all any
  enroll_all-other faults i [] ms t f c n h = ap (member_row f c) (cc)
  enroll_all-other faults i (e ∷ es) ms t f c n h =
      let (ms', up, rest) =
        proceed-none (faults i) e ms t (enroll k (faults i) e ms) (enroll_all k faults (i + 1) es)
          refl h in
      enroll_all-other faults (i + 1) es ms' t f c (ground arith) rest
      ∙ upsert-other (offered k e) ms ms' up f c (ground arith)

  -- The row of an entry that no later one of the same member overwrites.
  pub enroll_all-own :
      (faults : ℕ → Option InitError) (i : ℕ) (before : List Entry) (e : Entry) (after : List Entry)
      (ms t : Members)
      → any (is_for e.federation_id e.client_id) after ≡ false
      → enroll_all k faults i (before ++ (e ∷ after)) ms ≡ (none, t)
      → member_row e.federation_id e.client_id t
        ≡ some
            (record (offered k e) { revoked = flag_of (member_row e.federation_id e.client_id ms) })
  unfolding enroll_all
  enroll_all-own faults i [] e after ms t last h =
      let (ms', up, rest) =
        proceed-none (faults i) e ms t (enroll k (faults i) e ms)
          (enroll_all k faults (i + 1) after) refl h in
      enroll_all-other faults (i + 1) after ms' t e.federation_id e.client_id last rest
      ∙ upsert-own (offered k e) ms ms' up refl
  enroll_all-own faults i (b ∷ before) e after ms t last h =
      let (ms', up, rest) =
        proceed-none (faults i) b ms t (enroll k (faults i) b ms)
          (enroll_all k faults (i + 1) (before ++ (e ∷ after))) refl h in
      enroll_all-own faults (i + 1) before e after ms' t last rest
      ∙ ap (λ r. some (record (offered k e) { revoked = r }))
          ((upsert-Keeps b ms ms' up).flag e.federation_id e.client_id)

  pub initialize_once-Keeps :
      (at_schema : Option InitError) (faults : ℕ → Option InitError) (federations : Federations)
      (ms : Members)
      → Keeps ms (initialize_once k at_schema faults federations ms).1
  unfolding initialize_once
  initialize_once-Keeps (some x) faults federations ms = Keeps-refl ms
  initialize_once-Keeps none faults federations ms =
      enroll_all-Keeps faults 0 (entries federations) ms

  pub initialize_once-none :
      (at_schema : Option InitError) (faults : ℕ → Option InitError) (federations : Federations)
      (ms t : Members)
      → initialize_once k at_schema faults federations ms ≡ (none, t)
      → enroll_all k faults 0 (entries federations) ms ≡ (none, t)
  unfolding initialize_once
  initialize_once-none (some x) faults federations ms t h = absurd (cc)
  initialize_once-none none faults federations ms t h = h
