-- ===== src/Config/Accepted.antt =====
-- Which settings are accepted.
use deki_smpc_server.Prelude.{
  ℕ, zero, suc, ◌≤◌, ◌≡◌, refl, sym, ◌∙◌, ◌↔◌, Bool, true, false, ◌||◌, Option, none, some, List,
  [], ◌∷◌, arith, if◌then◌else◌,
}
use deki_smpc_server.Prelude.Rows.{any}
use deki_smpc_server.Config.{
  ℤ, pos, negsuc, Float, finite, nan, infinite, minus_infinite, Parsing, Settings, Loaded, accepted,
  rejected, not_positive, participants_low, float_of_int, min_from, is_le_zero, is_below_three,
  validated,
}
use deki_smpc_server.Config.Least.{is_nan, min_from_le_zero}

-- An integer from a least one on, and a float that is positive or not a number.
abbrev pub IsFrom : ℕ → ℤ → Type 0
IsFrom least (pos n) = least ≤ n
IsFrom least (negsuc n) = ⊥

abbrev pub IsPositiveOrNan : Float → Type 0
IsPositiveOrNan (finite a) = IsFrom 1 a
IsPositiveOrNan nan = Unit
IsPositiveOrNan infinite = Unit
IsPositiveOrNan minus_infinite = ⊥

abbrev pub IsLimit : Option ℤ → Type 0
IsLimit none = Unit
IsLimit (some n) = IsFrom 3 n

pub record IsSane (s : Settings) : Type 0 where
  pub max_artifact_bytes : IsFrom 1 s.max_artifact_bytes
  pub round_ttl_seconds : IsFrom 1 s.round_ttl_seconds
  pub retention_seconds : IsFrom 1 s.retention_seconds
  pub worker_poll_seconds : IsPositiveOrNan s.worker_poll_seconds
  pub worker_lease_seconds : IsPositiveOrNan s.worker_lease_seconds
  pub maintenance_interval_seconds : IsPositiveOrNan s.maintenance_interval_seconds
  pub max_participants : IsLimit s.max_participants

is_le_zero-float_of_int :
    (p : Parsing) (n : ℤ) → (is_le_zero (float_of_int p n) ≡ false) ↔ IsFrom 1 n
is_le_zero-float_of_int p (pos zero) = ground arith
is_le_zero-float_of_int p (pos (suc n)) = grind arith
is_le_zero-float_of_int p (negsuc n) = ground arith

is_le_zero_lem : (x : Float) → (is_le_zero x ≡ false) ↔ IsPositiveOrNan x
is_le_zero_lem (finite (pos n)) = ground arith
is_le_zero_lem (finite (negsuc n)) = ground arith
is_le_zero_lem nan = ground arith
is_le_zero_lem infinite = ground arith
is_le_zero_lem minus_infinite = ground arith

is_below_three_lem : (n : Option ℤ) → (is_below_three n ≡ false) ↔ IsLimit n
is_below_three_lem none = ground arith
is_below_three_lem (some (pos n)) = ground arith
is_below_three_lem (some (negsuc n)) = ground arith

is_number : (p : Parsing) (n : ℤ) → is_nan (float_of_int p n) ≡ false
is_number p (pos n) = refl
is_number p (negsuc n) = refl

-- The two tests of the checks.
abbrev tested : Settings → Bool → Bool → Loaded
tested s low few =
    if low then rejected not_positive else if few then rejected participants_low else accepted s

tested_accepted :
    (s t : Settings) (low few : Bool)
    → tested s low few ≡ accepted t
    → (low ≡ false) × (few ≡ false) × (s ≡ t)
tested_accepted s t true few h = absurd (cc)
tested_accepted s t false true h = absurd (cc)
tested_accepted s t false false h = (refl, refl, cc)

or_false : (a b : Bool) → a || b ≡ false → (a ≡ false) × (b ≡ false)
or_false true b h = absurd (cc)
or_false false b h = (refl, h)

-- The values that are compared after the first.
abbrev later : Parsing → Settings → List Float
later p s =
    float_of_int p s.round_ttl_seconds
    ∷ float_of_int p s.retention_seconds
    ∷ s.worker_poll_seconds
    ∷ s.worker_lease_seconds
    ∷ s.maintenance_interval_seconds
    ∷ []

least_is :
    (p : Parsing) (s : Settings)
    → is_le_zero (min_from (float_of_int p s.max_artifact_bytes) (later p s))
      ≡ is_le_zero (float_of_int p s.max_artifact_bytes) || any is_le_zero (later p s)
least_is p s =
    min_from_le_zero (float_of_int p s.max_artifact_bytes) (later p s)
      (is_number p s.max_artifact_bytes)

validated-IsSane : (p : Parsing) (s t : Settings) → validated p s ≡ accepted t → IsSane t
unfolding validated any
validated-IsSane p s t h =
    let (low, few, same) = tested_accepted s t _ _ h in
    let none_low = sym (least_is p s) ∙ low in
    let (a, r) = or_false _ _ none_low in
    let (b, r) = or_false _ _ r in
    let (c, r) = or_false _ _ r in
    let (d, r) = or_false _ _ r in
    let (e, r) = or_false _ _ r in
    let (f, r) = or_false _ _ r in
    rw (← same) (record {
      max_artifact_bytes = (is_le_zero-float_of_int p s.max_artifact_bytes).0 a;
      round_ttl_seconds = (is_le_zero-float_of_int p s.round_ttl_seconds).0 b;
      retention_seconds = (is_le_zero-float_of_int p s.retention_seconds).0 c;
      worker_poll_seconds = (is_le_zero_lem s.worker_poll_seconds).0 d;
      worker_lease_seconds = (is_le_zero_lem s.worker_lease_seconds).0 e;
      maintenance_interval_seconds = (is_le_zero_lem s.maintenance_interval_seconds).0 f;
      max_participants = (is_below_three_lem s.max_participants).0 few;
    })

IsSane-validated : (p : Parsing) (s : Settings) → IsSane s → validated p s ≡ accepted s
unfolding validated any
IsSane-validated p s g =
    let a = (is_le_zero-float_of_int p s.max_artifact_bytes).1 g.max_artifact_bytes in
    let b = (is_le_zero-float_of_int p s.round_ttl_seconds).1 g.round_ttl_seconds in
    let c = (is_le_zero-float_of_int p s.retention_seconds).1 g.retention_seconds in
    let d = (is_le_zero_lem s.worker_poll_seconds).1 g.worker_poll_seconds in
    let e = (is_le_zero_lem s.worker_lease_seconds).1 g.worker_lease_seconds in
    let f = (is_le_zero_lem s.maintenance_interval_seconds).1 g.maintenance_interval_seconds in
    let few = (is_below_three_lem s.max_participants).1 g.max_participants in
    let low : is_le_zero (min_from (float_of_int p s.max_artifact_bytes) (later p s)) ≡ false =
      rw (least_is p s, a, b, c, d, e, f) refl in
    rw (low, few) refl

-- The settings pass the checks exactly where the integers are positive, the floats positive or not a
-- number, and the limit on participants, if there is one, is three or more.
pub validated_iff : (p : Parsing) (s : Settings) → (validated p s ≡ accepted s) ↔ IsSane s
validated_iff p s = (validated-IsSane p s s, IsSane-validated p s)
