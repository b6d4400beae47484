-- ===== src/Domain/Topology/Sizes.antt =====
-- The sizes of the groups of topology.py: `_group_sizes`.
use deki_smpc_server.Prelude.{
  ℕ, zero, suc, ◌+◌, ◌-◌, ◌*◌, ◌/◌, ◌%◌, ◌≤◌, ◌<◌, ◌≡◌, refl, false, ◌⊎◌, inl, inr, some, List, [],
  ◌∷◌, arith, ◌==◌, Bool-cases,
}
use deki_smpc_server.Domain.Topology.{ceil_div, sizes_from, any_unbalanced, group_sizes}

abbrev pub total : List ℕ → ℕ
total [] = 0
total (n ∷ ns) = n + total ns

-- Each size is at least 3 and at most 5.
abbrev pub AreBalanced : List ℕ → Type 0
AreBalanced [] = Unit
AreBalanced (n ∷ ns) = (3 ≤ n) × (n ≤ 5) × AreBalanced ns

-- A quotient between 3 and 4 is one of the two, exactly if it is 4.
quotient :
    (q b r n : ℕ)
    → q * b + r ≡ n
    → r < q
    → q * 3 ≤ n
    → n ≤ q * 4
    → ((b ≡ 3) × (n ≡ 3 * q + r)) ⊎ ((b ≡ 4) × (r ≡ 0) × (n ≡ 4 * q))
quotient q zero r n e h lo hi = absurd (omega arith)
quotient q (suc zero) r n e h lo hi = absurd (omega arith)
quotient q (suc (suc zero)) r n e h lo hi = absurd (omega arith)
quotient q (suc (suc (suc zero))) r n e h lo hi = inl (refl, omega arith)
quotient q (suc (suc (suc (suc zero)))) r n e h lo hi = inr (refl, omega arith, omega arith)
quotient q (suc (suc (suc (suc (suc k))))) r n e h lo hi = absurd (omega arith)

-- What is to show of the sizes of a division.
abbrev Fits : ℕ → List ℕ → Type 0
Fits n sizes = (any_unbalanced sizes ≡ false) × (total sizes ≡ n) × AreBalanced sizes

fours : (r i c : ℕ) → r ≡ 0 → Fits (4 * c) (sizes_from 4 r i c)
unfolding sizes_from any_unbalanced
fours r i zero e = (refl, refl, tt)
fours r i (suc c) e = ground (arith, fours r (i + 1) c e)

threes : (r i c : ℕ) → r ≤ i + c → Fits (3 * c + (r - i)) (sizes_from 3 r i c)
unfolding sizes_from any_unbalanced
threes r i zero e = (refl, omega arith, tt)
threes r i (suc c) e = ground (arith, threes r (i + 1) c (omega arith))

divided : (n q : ℕ) → 1 ≤ q → q * 3 ≤ n → n ≤ q * 4 → Fits n (sizes_from (n / q) (n % q) 0 q)
divided n q pos lo hi = elim (quotient q (n / q) (n % q) n (omega arith) (omega arith) lo hi) [
  | inl (b, e) ↦
      let fit : Fits (3 * q + (n % q - 0)) (sizes_from 3 (n % q) 0 q) =
        threes (n % q) 0 q (omega arith) in
      (rw b fit.0, rw (b, fit.1) (omega arith), rw b fit.2)
  | inr (b, r, e) ↦
      let fit : Fits (4 * q) (sizes_from 4 (n % q) 0 q) = fours (n % q) 0 q r in
      (rw b fit.0, rw (b, fit.1) (omega arith), rw b fit.2)
]

-- From three participants on, the division into groups never fails: it gives sizes from 3 to 5 that
-- add up to the number of participants.
pub group_sizes-total :
    (n : ℕ)
    → 3 ≤ n
    → (sizes : List ℕ) × (group_sizes n ≡ some sizes) × (total sizes ≡ n) × AreBalanced sizes
unfolding group_sizes
group_sizes-total n h = elim (Bool-cases (n == 5)) [
  | inl five ↦ (5 ∷ [], ground arith, ground arith, (omega arith, omega arith, tt))
  | inr other ↦
      let q = ceil_div n 4 in
      let fit = divided n q (omega arith) (ground arith) (omega arith) in
      (sizes_from (n / q) (n % q) 0 q, ground (arith, fit.0), fit.1, fit.2)
]
