-- ===== src/Api/Server/Access.antt =====
-- Who is let in: credentials, and the membership of a round, on every route.
use deki_smpc_server.Prelude.{
  ℕ, ◌≡◌, refl, ap, ◌∙◌, ◌≢◌, inl, inr, Message, Bool, true, false, ◌&&◌, Option, none, some, [],
  ◌∷◌, ◌++◌, leb, arith, length, drop, Bool-cases, ==_self,
}
use deki_smpc_server.Persistence.Members.{Members, Encoding, member_for_token}
use deki_smpc_server.Api.{Answer, answered, refused, ApiError, api_error, authentication_failed}
use deki_smpc_server.Api.Identity.{
  bearer_prefix, starts_with, message_eq, bearer, found_member, member_of, participant_identity,
  is_ascii, compare_digest, compared, operator_of, operator_identity,
}
use deki_smpc_server.Api.Updates.{Site}
use deki_smpc_server.Api.Server.{
  App, Headers, Route, opens, aborts, of_round, Reply, Arrival, then_with, serve,
}

starts_with_lem :
    (prefix value : Message)
    → starts_with prefix value ≡ true
    → value ≡ prefix ++ drop (length prefix) value
unfolding starts_with
starts_with_lem [] value h = refl
starts_with_lem (c ∷ prefix) [] h = absurd (cc)
starts_with_lem (c ∷ prefix) (d ∷ value) h =
    let rest = starts_with_lem prefix value (ground arith) in
    let same : d ≡ c = ground arith in λ i. same i ∷ rest i

starts_with-append : (prefix value : Message) → starts_with prefix (prefix ++ value) ≡ true
unfolding starts_with
starts_with-append [] value = refl
starts_with-append (c ∷ prefix) value = rw (==_self c) (starts_with-append prefix value)

message_eq_lem : (a b : Message) → message_eq a b ≡ true → a ≡ b
unfolding message_eq
message_eq_lem [] [] h = refl
message_eq_lem [] (d ∷ ds) h = absurd (cc)
message_eq_lem (c ∷ cs) [] h = absurd (cc)
message_eq_lem (c ∷ cs) (d ∷ ds) h =
    let rest = message_eq_lem cs ds (ground arith) in
    let same : c ≡ d = ground arith in λ i. same i ∷ rest i

-- A header that carries a token.
abbrev pub Carries : Option Message → Message → Type 0
Carries header token = header ≡ some (bearer_prefix ++ token)

bearer-Carries :
    (header : Option Message) (token : Message)
    → bearer header ≡ answered token
    → Carries header token
unfolding bearer
bearer-Carries none token h = absurd (cc)
bearer-Carries (some value) token h = elim (Bool-cases (starts_with bearer_prefix value)) [
  | inr other ↦ let h = rw other at h in absurd (cc)
  | inl starts ↦ elim (Bool-cases (leb (length value) 7)) [
    | inl short ↦ let h = rw (starts, short) at h in absurd (cc)
    | inr long ↦
        let h = rw (starts, long) at h in
        let e = starts_with_lem bearer_prefix value starts in
        let is : drop 7 value ≡ token = cc in ap some (e ∙ ap (λ t. bearer_prefix ++ t) is)
  ]
]

pub Carries-bearer :
    (header : Option Message) (c : ℕ) (token : Message)
    → Carries header (c ∷ token)
    → bearer header ≡ answered (c ∷ token)
unfolding bearer
Carries-bearer header c token h = rw h (ground arith)

-- Nobody that the route is for: the header carries no credential, or one that is not known.
abbrev pub IsStranger : App → Headers → Route → Type 0
IsStranger app h (opens federation_id body) =
    (token : Message) → Carries h.authorization token → token ≢ app.admin_token
IsStranger app h (aborts round_id reason) =
    (token : Message) → Carries h.authorization token → token ≢ app.admin_token
IsStranger app h (of_round round_id call) =
    (token : Message)
    → Carries h.authorization token
    → member_for_token app.encoding token app.members ≡ none

compared_refused :
    (token admin : Message) (o : Option Bool)
    → compare_digest token admin ≡ o
    → token ≢ admin
    → (e : ApiError) × (compared o ≡ refused e)
unfolding compared compare_digest
compared_refused token admin none h n = (_, refl)
compared_refused token admin (some false) h n = (_, refl)
compared_refused token admin (some true) h n =
    elim (Bool-cases (is_ascii token && is_ascii admin)) [
      | inl ascii ↦
          let h = rw ascii at h in
          let same : message_eq token admin ≡ true = cc in
          absurd (n (message_eq_lem token admin same))
      | inr other ↦ let h = rw other at h in absurd (cc)
    ]

operator-refused :
    (admin : Message) (header : Option Message) (x : Answer Message)
    → bearer header ≡ x
    → ((token : Message) → Carries header token → token ≢ admin)
    → (e : ApiError) × (operator_of admin x ≡ refused e)
unfolding operator_of
operator-refused admin header (refused e) h n = (e, refl)
operator-refused admin header (answered token) h n =
    compared_refused token admin _ refl (n token (bearer-Carries header token h))

member-refused :
    (k : Encoding) (ms : Members) (header : Option Message) (x : Answer Message)
    → bearer header ≡ x
    → ((token : Message) → Carries header token → member_for_token k token ms ≡ none)
    → (e : ApiError) × (member_of k ms x ≡ refused e)
unfolding member_of found_member
member-refused k ms header (refused e) h n = (e, refl)
member-refused k ms header (answered token) h n = (
  api_error 401 authentication_failed,
  rw (n token (bearer-Carries header token h), found_member) refl,
)

then_with-refused :
    {A : Type 0} (x : Answer A) (f : A → Site → Answer Reply × Site) (site : Site)
    → ((e : ApiError) × (x ≡ refused e))
    → (e : ApiError) × (then_with x f site ≡ (refused e, site))
unfolding then_with
then_with-refused (refused d) f site (e, h) = (d, refl)
then_with-refused (answered y) f site (e, h) = absurd (cc)

-- On every route, a caller whose header does not carry the token of the operator, or of a live
-- member where the route is for participants, is refused, and nothing changes.
pub serve-IsStranger :
    (app : App) (h : Headers) (route : Route) (a : Arrival) (site : Site)
    → IsStranger app h route
    → (e : ApiError) × (serve app h route a site ≡ (refused e, site))
unfolding serve operator_identity participant_identity
serve-IsStranger app h (opens federation_id body) a site n =
    then_with-refused _ _ site
      (operator-refused app.admin_token h.authorization (bearer h.authorization) refl n)
serve-IsStranger app h (aborts round_id reason) a site n =
    then_with-refused _ _ site
      (operator-refused app.admin_token h.authorization (bearer h.authorization) refl n)
serve-IsStranger app h (of_round round_id call) a site n =
    then_with-refused _ _ site
      (member-refused app.encoding app.members h.authorization (bearer h.authorization) refl n)
