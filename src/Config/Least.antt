-- ===== src/Config/Least.antt =====
-- The least of the settings, as `min` gives it.
use deki_smpc_server.Prelude.{◌≡◌, Bool, true, false, ◌||◌, List, [], ◌∷◌, arith, if◌then◌else◌}
use deki_smpc_server.Prelude.Rows.{any}
use deki_smpc_server.Config.{
  pos, negsuc, Float, finite, nan, infinite, minus_infinite, float_lt, min_from, is_le_zero,
}

abbrev pub is_nan : Float → Bool
is_nan nan = true
is_nan _ = false

abbrev lesser : Float → Float → Float
lesser least x = if float_lt x least then x else least

lesser_le_zero :
    (least x : Float)
    → is_nan least ≡ false
    → (is_le_zero (lesser least x) ≡ is_le_zero least || is_le_zero x)
      × (is_nan (lesser least x) ≡ false)
lesser_le_zero nan x h = absurd (cc)
lesser_le_zero (finite (pos a)) (finite (pos b)) h = ground arith
lesser_le_zero (finite (pos a)) (finite (negsuc b)) h = ground arith
lesser_le_zero (finite (negsuc a)) (finite (pos b)) h = ground arith
lesser_le_zero (finite (negsuc a)) (finite (negsuc b)) h = ground arith
lesser_le_zero (finite (pos a)) nan h = ground arith
lesser_le_zero (finite (pos a)) infinite h = ground arith
lesser_le_zero (finite (pos a)) minus_infinite h = ground arith
lesser_le_zero (finite (negsuc a)) nan h = ground arith
lesser_le_zero (finite (negsuc a)) infinite h = ground arith
lesser_le_zero (finite (negsuc a)) minus_infinite h = ground arith
lesser_le_zero infinite (finite (pos b)) h = ground arith
lesser_le_zero infinite (finite (negsuc b)) h = ground arith
lesser_le_zero infinite nan h = ground arith
lesser_le_zero infinite infinite h = ground arith
lesser_le_zero infinite minus_infinite h = ground arith
lesser_le_zero minus_infinite (finite (pos b)) h = ground arith
lesser_le_zero minus_infinite (finite (negsuc b)) h = ground arith
lesser_le_zero minus_infinite nan h = ground arith
lesser_le_zero minus_infinite infinite h = ground arith
lesser_le_zero minus_infinite minus_infinite h = ground arith

-- The least of the values is positive exactly where none of them is zero or below; one that is not a
-- number and does not come first is passed over.
pub min_from_le_zero :
    (least : Float) (xs : List Float)
    → is_nan least ≡ false
    → is_le_zero (min_from least xs) ≡ is_le_zero least || any is_le_zero xs
unfolding min_from any
min_from_le_zero least [] h = ground arith
min_from_le_zero least (x ∷ xs) h =
    let (le, number) = lesser_le_zero least x h in
    let rest = min_from_le_zero (lesser least x) xs number in ground arith
