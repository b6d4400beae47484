-- ===== src/Persistence/Lifecycle.antt =====
-- How the rounds of the store evolve: a round is born in registration, moves along the transition
-- table with a new version each time, keeps what it was created with, and leaves the store only
-- where it stands in a terminal state.
pub mod Rules
pub mod History
use deki_smpc_server.Prelude.{ℕ, Text, Option, none, some, ◌≡◌, refl, ◌⊎◌, inl, inr, true, ◌∙◌, ap}
use deki_smpc_server.Domain.States.{RoundState, registration_open, is_terminal}
use deki_smpc_server.Domain.States.Lifecycle.{Trail, Trail-refl, Trail-trans}
use deki_smpc_server.Persistence.Schema.{Db, RoundRow}
use deki_smpc_server.Persistence.Statements.{round_of}
use deki_smpc_server.Persistence.Ensures.{IsPreorder}

-- What a round is created with never changes.
pub record KeepsTerms (a b : RoundRow) : Type 0 where
  pub federation_id : b.federation_id ≡ a.federation_id
  pub protocol_version : b.protocol_version ≡ a.protocol_version
  pub model_schema_hash : b.model_schema_hash ≡ a.model_schema_hash
  pub model_schema : b.model_schema ≡ a.model_schema
  pub participant_manifest_hash : b.participant_manifest_hash ≡ a.participant_manifest_hash
  pub participants : b.participants ≡ a.participants
  pub expected_count : b.expected_count ≡ a.expected_count
  pub created_at : b.created_at ≡ a.created_at
  pub deadline_at : b.deadline_at ≡ a.deadline_at

pub record Continues (a b : RoundRow) : Type 0 where
  pub trail : Trail a.state a.state_version b.state b.state_version
  pub terms : KeepsTerms a b

abbrev pub IsBorn : RoundRow → Type 0
IsBorn b = Trail registration_open 1 b.state b.state_version

-- What a request that does not purge may do to a round.
abbrev pub Stays : Option RoundRow → Option RoundRow → Type 0
Stays none none = Unit
Stays none (some b) = IsBorn b
Stays (some a) none = ⊥
Stays (some a) (some b) = Continues a b

-- What any request may do to a round: it goes only where it stands in a terminal state.
abbrev pub Steps : Option RoundRow → Option RoundRow → Type 0
Steps none none = Unit
Steps none (some b) = IsBorn b
Steps (some a) none = is_terminal a.state ≡ true
Steps (some a) (some b) = Continues a b

-- What a history may do to a round, where `HasEnded` is how one ends.
abbrev pub Evolves : (HasEnded : RoundRow → Type 0) → Option RoundRow → Option RoundRow → Type 0
Evolves HasEnded none none = Unit
Evolves HasEnded none (some b) = IsBorn b
Evolves HasEnded (some a) none = HasEnded a
Evolves HasEnded (some a) (some b) = Continues a b ⊎ (HasEnded a × IsBorn b)

KeepsTerms-refl : (a : RoundRow) → KeepsTerms a a
KeepsTerms-refl a = record {
  federation_id = refl;
  protocol_version = refl;
  model_schema_hash = refl;
  model_schema = refl;
  participant_manifest_hash = refl;
  participants = refl;
  expected_count = refl;
  created_at = refl;
  deadline_at = refl;
}

KeepsTerms-trans : {a b c : RoundRow} → KeepsTerms a b → KeepsTerms b c → KeepsTerms a c
KeepsTerms-trans h k = record {
  federation_id = k.federation_id ∙ h.federation_id;
  protocol_version = k.protocol_version ∙ h.protocol_version;
  model_schema_hash = k.model_schema_hash ∙ h.model_schema_hash;
  model_schema = k.model_schema ∙ h.model_schema;
  participant_manifest_hash = k.participant_manifest_hash ∙ h.participant_manifest_hash;
  participants = k.participants ∙ h.participants;
  expected_count = k.expected_count ∙ h.expected_count;
  created_at = k.created_at ∙ h.created_at;
  deadline_at = k.deadline_at ∙ h.deadline_at;
}

pub Continues-refl : (a : RoundRow) → Continues a a
Continues-refl a = record { trail = Trail-refl a.state a.state_version; terms = KeepsTerms-refl a }

pub Continues-trans : {a b c : RoundRow} → Continues a b → Continues b c → Continues a c
Continues-trans h k = record {
  trail = Trail-trans h.trail k.trail;
  terms = KeepsTerms-trans h.terms k.terms;
}

pub Stays-refl : (a : Option RoundRow) → Stays a a
Stays-refl none = tt
Stays-refl (some a) = Continues-refl a

Stays-trans : (a b c : Option RoundRow) → Stays a b → Stays b c → Stays a c
Stays-trans none none c h k = k
Stays-trans none (some b) none h k = absurd k
Stays-trans none (some b) (some c) h k = Trail-trans h k.trail
Stays-trans (some a) none c h k = absurd h
Stays-trans (some a) (some b) none h k = absurd k
Stays-trans (some a) (some b) (some c) h k = Continues-trans h k

pub Stays-Steps : (a b : Option RoundRow) → Stays a b → Steps a b
Stays-Steps none none h = tt
Stays-Steps none (some b) h = h
Stays-Steps (some a) none h = absurd h
Stays-Steps (some a) (some b) h = h

-- The relations on databases, round by round.
pub record RoundsStay (s t : Db) : Type 0 where
  pub of : (id : Text) → Stays (round_of id s) (round_of id t)

pub record RoundsStep (s t : Db) : Type 0 where
  pub of : (id : Text) → Steps (round_of id s) (round_of id t)

pub RoundsStep-of : (s t : Db) → RoundsStay s t → RoundsStep s t
RoundsStep-of s t h = record { of = λ id. Stays-Steps (round_of id s) (round_of id t) (h.of id) }

instance pub RoundsStay-IsPreorder : IsPreorder RoundsStay
RoundsStay-IsPreorder = record {
  same = λ s. record { of = λ id. Stays-refl (round_of id s) };
  chain = λ s t u h k. record {
    of = λ id. Stays-trans (round_of id s) (round_of id t) (round_of id u) (h.of id) (k.of id);
  };
}
