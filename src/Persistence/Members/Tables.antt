-- ===== src/Persistence/Members/Tables.antt =====
-- What the statements on the table of members keep: its constraints, and the flag `revoked`.
use deki_smpc_server.Prelude.{
  ◌≤◌, ◌≡◌, refl, ◌∙◌, inl, inr, ◌⊎◌, Text, Bool, true, false, not, ◌&&◌, Option, none, some, [],
  ◌∷◌, ◌++◌, ◌==◌, arith, if◌then◌else◌, Bool-cases, ==_self,
}
use mathlib.Core.Option
use deki_smpc_server.Prelude.Rows.{select_one, count_where, update_where, any}
use deki_smpc_server.Prelude.Rows.Laws.{
  select_one-update, select_one-append, select_one-append_other, select_one_holds, select_one-none,
}
use deki_smpc_server.Prelude.Rows.Counts.{count-append, count_none}
use deki_smpc_server.Prelude.Rows.Unique.{count-update_le, count-update_shrinks, any_found}
use deki_smpc_server.Persistence.Members.{
  MemberRow, Members, is_member, has_hash, overwrite, done, upsert_member, member_row,
}

-- PRIMARY KEY(federation_id, client_id) and UNIQUE(token_hash).
pub record IsUnique (ms : Members) : Type 0 where
  pub keys : (f c : Text) → count_where (is_member f c) ms ≤ 1
  pub tokens : (h : Text) → count_where (has_hash h) ms ≤ 1

-- The two ways in which the statement succeeds.
abbrev Upserted : MemberRow → Members → Members → Type 0
Upserted row ms ms' =
    ((count_where
          (λ m. has_hash row.token_hash m && not (is_member row.federation_id row.client_id m)) ms
        ≡ 0)
      × (any (is_member row.federation_id row.client_id) ms ≡ true)
      × (ms' ≡ update_where (is_member row.federation_id row.client_id) (overwrite row) ms))
    ⊎ ((any (is_member row.federation_id row.client_id) ms ≡ false)
        × (count_where (has_hash row.token_hash) ms ≡ 0)
        × (ms' ≡ ms ++ row ∷ []))

no_token :
    (h : Text) (q : MemberRow → Bool) (ms : Members)
    → any q ms ≡ false
    → any (λ m. has_hash h m && not (q m)) ms ≡ false
    → count_where (has_hash h) ms ≡ 0
unfolding any count_where
no_token h q [] e g = refl
no_token h q (m ∷ ms) e g = ground (arith, no_token h q ms)

upsert-cases :
    (row : MemberRow) (ms ms' : Members) → upsert_member row ms ≡ done ms' → Upserted row ms ms'
unfolding upsert_member
upsert-cases row ms ms' h =
    let same = is_member row.federation_id row.client_id in
    let clash = λ (m : MemberRow). has_hash row.token_hash m && not (same m) in
    elim (Bool-cases (any clash ms)) [
      | inl taken ↦ let h = rw taken at h in absurd (cc)
      | inr free ↦ elim (Bool-cases (any same ms)) [
        | inl there ↦ let h = rw (free, there) at h in inl (count_none clash ms free, there, cc)
        | inr new ↦
            let h = rw (free, new) at h in inr (new, no_token row.token_hash same ms new free, cc)
      ]
    ]

-- The flag of a member, and that of one that is not there.
unfoldable pub flag_of : Option MemberRow → Bool
flag_of none = false
flag_of (some m) = m.revoked

abbrev own : MemberRow → MemberRow → Bool
own row = is_member row.federation_id row.client_id

module _ (row : MemberRow) (ms : Members) (u : IsUnique ms) where
  update-tokens :
      (x : Text)
      → count_where (λ m. has_hash row.token_hash m && not (own row m)) ms ≡ 0
      → count_where (has_hash x) (update_where (own row) (overwrite row) ms) ≤ 1
  update-tokens x free = elim (Bool-cases (row.token_hash == x)) [
    | inl is ↦
        let same : row.token_hash ≡ x = ground arith in
        let free = rw same at free in
        omega (
          arith,
          count-update_le (has_hash x) (own row) (overwrite row) ms,
          u.keys row.federation_id row.client_id,
          free,
        )
    | inr differs ↦ omega (
      arith,
      u.tokens x,
      count-update_shrinks (has_hash x) (own row) (overwrite row) ms (λ m h. absurd (cc)),
    )
  ]

  append-keys :
      (f c : Text) → any (own row) ms ≡ false → count_where (is_member f c) (ms ++ row ∷ []) ≤ 1
  append-keys f c new = elim (Bool-cases (is_member f c row)) [
    | inl is ↦
        let f_is : row.federation_id ≡ f = ground arith in
        let c_is : row.client_id ≡ c = ground arith in
        let none_is : count_where (is_member f c) ms ≡ 0 =
          rw (← f_is, ← c_is) (count_none (own row) ms new) in
        ground (arith, count-append (is_member f c) row ms)
    | inr differs ↦ ground (arith, count-append (is_member f c) row ms, u.keys f c)
  ]

  append-tokens :
      (x : Text)
      → count_where (has_hash row.token_hash) ms ≡ 0
      → count_where (has_hash x) (ms ++ row ∷ []) ≤ 1
  append-tokens x free = elim (Bool-cases (row.token_hash == x)) [
    | inl is ↦
        let same : row.token_hash ≡ x = ground arith in
        let free = rw same at free in ground (arith, count-append (has_hash x) row ms)
    | inr differs ↦ ground (arith, count-append (has_hash x) row ms, u.tokens x)
  ]

module _ (row : MemberRow) (ms ms' : Members) (h : upsert_member row ms ≡ done ms') where
  pub upsert-IsUnique : IsUnique ms → IsUnique ms'
  upsert-IsUnique u = elim (upsert-cases row ms ms' h) [
    | inl (free, there, is) ↦ rw is (record {
      keys = λ f c. omega (
        arith,
        u.keys f c,
        count-update_shrinks (is_member f c) (own row) (overwrite row) ms (λ m e. e),
      );
      tokens = λ x. update-tokens row ms u x free;
    })
    | inr (new, free, is) ↦ rw is (record {
      keys = λ f c. append-keys row ms u f c new;
      tokens = λ x. append-tokens row ms u x free;
    })
  ]

  differs_from :
      (f c : Text) (o : Option MemberRow)
      → (row.federation_id == f && row.client_id == c) ≡ false
      → ((m : MemberRow) → o ≡ some m → is_member f c m ≡ true)
      → Option.map
          (λ m. if is_member row.federation_id row.client_id m then overwrite row m else m)
          o
        ≡ o
  differs_from f c none e k = refl
  differs_from f c (some m) e k = ground (arith, k m refl)

  pub upsert-other :
      (f c : Text)
      → (row.federation_id == f && row.client_id == c) ≡ false
      → member_row f c ms' ≡ member_row f c ms
  unfolding member_row
  upsert-other f c differs = elim (upsert-cases row ms ms' h) [
    | inl (free, there, is) ↦ rw is (
        select_one-update (is_member f c) (is_member row.federation_id row.client_id)
          (overwrite row) ms (λ m. refl)
        ∙ differs_from f c (select_one (is_member f c) ms) differs
            (λ m e. select_one_holds (is_member f c) m ms e))
    | inr (new, free, is) ↦ rw is (select_one-append_other (is_member f c) row ms differs)
  ]

  found_own :
      (o : Option MemberRow)
      → (o ≡ none → ⊥)
      → ((m : MemberRow) → o ≡ some m → is_member row.federation_id row.client_id m ≡ true)
      → Option.map
          (λ m. if is_member row.federation_id row.client_id m then overwrite row m else m)
          o
        ≡ some (record row { revoked = flag_of o })
  unfolding flag_of
  found_own none k l = absurd (k refl)
  found_own (some m) k l =
      let e = l m refl in
      let f : m.federation_id ≡ row.federation_id = ground arith in
      let c : m.client_id ≡ row.client_id = ground arith in
      rw e (λ i. some (record row { federation_id = f i; client_id = c i; revoked = m.revoked }))

  pub upsert-own :
      row.revoked ≡ false
      → member_row row.federation_id row.client_id ms'
        ≡ some (record row { revoked = flag_of (member_row row.federation_id row.client_id ms) })
  unfolding member_row flag_of
  upsert-own live = elim (upsert-cases row ms ms' h) [
    | inl (free, there, is) ↦ rw is (
        select_one-update (own row) (own row) (overwrite row) ms (λ m. refl)
        ∙ found_own (select_one (own row) ms) (λ e. any_found (own row) ms there e)
            (λ m e. select_one_holds (own row) m ms e))
    | inr (new, free, is) ↦
        rw (is, select_one-none (own row) ms new)
          (select_one-append (own row) row ms new
            ∙ rw (==_self row.federation_id, ==_self row.client_id)
                (λ i. some (record row { revoked = live i })))
  ]
