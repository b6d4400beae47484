-- ===== src/Domain/Models/Validation.antt =====
-- The validators of key-aggregation-server/app/domain/models.py: which requests FastAPI lets through
-- to a handler. Texts are lists of characters here, since the validators cut and compare them.
use deki_smpc_server.Prelude.{
  ℕ, Message, Bool, true, false, not, ◌&&◌, ◌||◌, Option, none, some, List, [], ◌∷◌, ltb, leb, ◌==◌,
  if◌then◌else◌, length,
}
use deki_smpc_server.Prelude.Rows.{any}
use deki_smpc_server.Domain.Models.{
  Dtype, float16, bfloat16, float32, float64, TensorPolicy, mean, sum, keep_local,
}

-- `TensorSchema`, `ModelSchema` and `CreateRoundRequest` as they are received.
pub record TensorRequest : Type 0 where
  pub name : Message
  pub shape : List ℕ
  pub dtype : Dtype
  pub policy : TensorPolicy

pub record SchemaRequest : Type 0 where
  pub entries : List TensorRequest
  pub precision_bits : ℕ

pub record RoundRequest : Type 0 where
  pub model_schema : SchemaRequest
  pub model_schema_hash : Message
  pub participants : List Message
  pub deadline_seconds : Option ℕ

-- `KeyEnvelope` and `KeyBundleArtifact`.
pub record EnvelopeRequest : Type 0 where
  pub nonce : Message
  pub ciphertext : Message

pub record BundleRequest : Type 0 where
  pub messages : List (Message × EnvelopeRequest)
  pub signature : Message

unfoldable pub all {ℓ} : {A : Type ℓ} → (A → Bool) → List A → Bool
all p [] = true
all p (x ∷ xs) = p x && all p xs

abbrev pub within : (low high n : ℕ) → Bool
within low high n = leb low n && leb n high

-- `min_length` and `max_length`.
abbrev pub sized {ℓ} : {A : Type ℓ} → (low high : ℕ) → List A → Bool
sized low high xs = within low high (length xs)

-- The order of Python's `str`, by code points.
unfoldable pub text_lt : Message → Message → Bool
text_lt xs [] = false
text_lt [] (y ∷ ys) = true
text_lt (x ∷ xs) (y ∷ ys) = ltb x y || (x == y && text_lt xs ys)

unfoldable pub text_eq : Message → Message → Bool
text_eq [] [] = true
text_eq (x ∷ xs) (y ∷ ys) = x == y && text_eq xs ys
text_eq _ _ = false

unfoldable pub texts_eq : List Message → List Message → Bool
unfolding text_eq
texts_eq [] [] = true
texts_eq (x ∷ xs) (y ∷ ys) = text_eq x y && texts_eq xs ys
texts_eq _ _ = false

-- `sorted`, which is stable.
unfoldable pub insert_text : Message → List Message → List Message
insert_text x [] = x ∷ []
insert_text x (y ∷ ys) = let rest = insert_text x ys in if text_lt y x then y ∷ rest else x ∷ y ∷ ys

unfoldable pub sorted_texts : List Message → List Message
unfolding insert_text
sorted_texts [] = []
sorted_texts (x ∷ xs) = insert_text x (sorted_texts xs)

-- `len(set(names)) != len(names)`.
unfoldable pub repeats : List Message → Bool
unfolding text_eq any
repeats [] = false
repeats (x ∷ xs) = any (text_eq x) xs || repeats xs

abbrev pub is_float : Dtype → Bool
is_float float16 = true
is_float bfloat16 = true
is_float float32 = true
is_float float64 = true
is_float _ = false

abbrev pub is_uploaded : TensorPolicy → Bool
is_uploaded mean = true
is_uploaded sum = true
is_uploaded keep_local = false

-- `__deki_`, the reserved prefix.
abbrev pub reserved_prefix : Message
reserved_prefix = 95 ∷ 95 ∷ 100 ∷ 101 ∷ 107 ∷ 105 ∷ 95 ∷ []

unfoldable pub has_prefix : Message → Message → Bool
has_prefix [] text = true
has_prefix (c ∷ prefix) [] = false
has_prefix (c ∷ prefix) (d ∷ text) = c == d && has_prefix prefix text

-- `validate_tensor`, after the fields.
unfoldable pub accepts_tensor : TensorRequest → Bool
unfolding has_prefix all any
accepts_tensor t =
    sized 1 1024 t.name
    && sized 0 8 t.shape
    && all (λ d. leb d 1000000000) t.shape
    && not (has_prefix reserved_prefix t.name || any (λ c. c == 0) t.name)
    && not (is_uploaded t.policy && not (is_float t.dtype))

unfoldable pub names_of : List TensorRequest → List Message
names_of [] = []
names_of (t ∷ ts) = t.name ∷ names_of ts

-- `validate_entries`.
unfoldable pub accepts_entries : List TensorRequest → Bool
unfolding names_of texts_eq sorted_texts repeats any
accepts_entries entries =
    texts_eq (names_of entries) (sorted_texts (names_of entries))
    && not (repeats (names_of entries))
    && any (λ e. is_uploaded e.policy) entries

unfoldable pub accepts_schema : SchemaRequest → Bool
unfolding accepts_tensor accepts_entries all
accepts_schema s =
    sized 1 4096 s.entries
    && all accepts_tensor s.entries
    && leb s.precision_bits 52
    && accepts_entries s.entries

-- `^[0-9a-f]{64}$`.
abbrev pub is_hex : ℕ → Bool
is_hex c = within 48 57 c || within 97 102 c

unfoldable pub is_sha256 : Message → Bool
unfolding all
is_sha256 text = length text == 64 && all is_hex text

-- `^[A-Za-z0-9][A-Za-z0-9._-]{0,127}$`.
abbrev pub is_alphanumeric : ℕ → Bool
is_alphanumeric c = within 65 90 c || within 97 122 c || within 48 57 c

abbrev pub is_name_character : ℕ → Bool
is_name_character c = is_alphanumeric c || c == 46 || c == 95 || c == 45

unfoldable pub is_client_name : Message → Bool
unfolding all
is_client_name [] = false
is_client_name (c ∷ cs) = is_alphanumeric c && leb (length cs) 127 && all is_name_character cs

abbrev pub accepts_deadline : Option ℕ → Bool
accepts_deadline none = true
accepts_deadline (some n) = within 5 86400 n

unfoldable pub accepts_round : RoundRequest → Bool
unfolding accepts_schema is_sha256 is_client_name all
accepts_round r =
    accepts_schema r.model_schema
    && is_sha256 r.model_schema_hash
    && leb 3 (length r.participants)
    && all is_client_name r.participants
    && accepts_deadline r.deadline_seconds

-- `PublicKeyArtifact`.
abbrev pub accepts_public_key : (key signature : Message) → Bool
accepts_public_key key signature = sized 40 64 key && sized 80 128 signature

-- `KeyBundleArtifact`, with each `KeyEnvelope`.
unfoldable pub accepts_bundle : BundleRequest → Bool
unfolding all
accepts_bundle b =
    leb 2 (length b.messages)
    && all (λ (m : Message × EnvelopeRequest). sized 16 24 m.1.nonce && sized 1 4096 m.1.ciphertext)
        b.messages
    && sized 80 128 b.signature

-- `KeyCompleteRequest`, `ArtifactReceipt` and `FinalKeyReceipt` hold one digest.
abbrev pub accepts_digest : Message → Bool
accepts_digest text = is_sha256 text

-- `AbortRequest`.
abbrev pub accepts_reason : Message → Bool
accepts_reason reason = sized 1 128 reason
