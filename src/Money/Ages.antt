-- ===== src/Money/Ages.antt =====
-- src/modules/money/repository.ts: the depth sampler's queries, over the rows of one table. The records
-- by status are functions of the status.
use wasla_core.Base.{
  ℕ, ◌+◌, ◌-◌, ◌/◌, Option, none, some, Bool, true, false, ◌≡◌, List, [], ◌∷◌, All, arith, leb,
  if◌then◌else◌, Option-cases, ◌⊎◌, inl, inr, Bool-cases,
}
use wasla_core.Base.Int.{ℤ, pos, negsuc, ◌≤ℤ◌, ltb_ℤ}
use wasla_core.Base.Table.{values}
use wasla_core.Money.Domain.{
  WalletStatus, active, frozen, closed, Wallet, AuthorizationStatus, authorized, captured,
  partially_captured, voided, PaymentAuthorization,
}
use wasla_core.Money.Store.{MoneyStore}

-- `Math.floor((nowMs - created) / 1000)`
unfoldable pub age_at : ℕ → ℕ → ℤ
age_at now created_at =
    if leb created_at now
    then pos ((now - created_at) / 1000)
    else negsuc ((created_at - now - 1) / 1000)

abbrev pub same_wallet_status : WalletStatus → WalletStatus → Bool
same_wallet_status active active = true
same_wallet_status frozen frozen = true
same_wallet_status closed closed = true
same_wallet_status _ _ = false

abbrev pub same_status : AuthorizationStatus → AuthorizationStatus → Bool
same_status authorized authorized = true
same_status captured captured = true
same_status partially_captured partially_captured = true
same_status voided voided = true
same_status _ _ = false

-- Some element of a list has the property.
abbrev pub Exists {ℓ} : {A : Type ℓ} → (A → Type 0) → List A → Type 0
Exists P [] = ⊥
Exists P (x ∷ xs) = P x ⊎ Exists P xs

-- The rows of a table, by what says whether a row has a status and when it was created.
module _ {V S : Type 0} (has_status : V → S → Bool) (created : V → ℕ) (now : ℕ) where
  abbrev pub note_age : V → (S → Option ℤ) → S → Option ℤ
  note_age v oldest s =
      if has_status v s
      then (elim (oldest s) [
        | none ↦ some (age_at now (created v))
        | some age ↦
            if ltb_ℤ (age_at now (created v)) age then some (age_at now (created v)) else some age
      ])
      else oldest s

  unfoldable pub ages : List V → (S → Option ℤ) → S → Option ℤ
  ages [] oldest = oldest
  ages (v ∷ vs) oldest = ages vs (note_age v oldest)

  unfoldable pub counts : List V → (S → ℕ) → S → ℕ
  counts [] n = n
  counts (v ∷ vs) n = counts vs (λ s. if has_status v s then n s + 1 else n s)

  -- The value kept only goes down.
  ages-down :
      (s : S) (vs : List V) (oldest : S → Option ℤ) (first last : ℤ)
      → oldest s ≡ some first
      → ages vs oldest s ≡ some last
      → last ≤ℤ first
  unfolding ages
  ages-down s [] oldest first last e f = ground arith
  ages-down s (v ∷ vs) oldest first last e f =
      let age = age_at now (created v) in
      elim (Bool-cases (has_status v s)) [
        | inl mine ↦ elim (Bool-cases (ltb_ℤ age first)) [
          | inl less ↦
              ground
                (arith, mine, less, ages-down s vs (note_age v oldest) age last (ground arith) f)
          | inr more ↦
              ground
                (arith, mine, more, ages-down s vs (note_age v oldest) first last (ground arith) f)
        ]
        | inr other ↦ ages-down s vs (note_age v oldest) first last (ground arith) f
      ]

  ages_least :
      (s : S) (vs : List V) (oldest : S → Option ℤ) (last : ℤ)
      → ages vs oldest s ≡ some last
      → All (λ v. has_status v s ≡ true → last ≤ℤ age_at now (created v)) vs
  unfolding ages
  ages_least s [] oldest last f = tt
  ages_least s (v ∷ vs) oldest last f = (first, ages_least s vs (note_age v oldest) last f)
    where
      age : ℤ
      age = age_at now (created v)

      first : has_status v s ≡ true → last ≤ℤ age_at now (created v)
      first mine = elim (Option-cases (oldest s)) [
        | inl e ↦ ages-down s vs (note_age v oldest) age last (ground arith) f
        | inr (old, e) ↦ elim (Bool-cases (ltb_ℤ age old)) [
          | inl less ↦ ages-down s vs (note_age v oldest) age last (ground arith) f
          | inr more ↦ ground (arith, ages-down s vs (note_age v oldest) old last (ground arith) f)
        ]
      ]

  -- The value kept is that of a row, or was there at first.
  ages_attained :
      (s : S) (vs : List V) (oldest : S → Option ℤ) (last : ℤ)
      → ages vs oldest s ≡ some last
      → (oldest s ≡ some last)
        ⊎ Exists (λ v. (has_status v s ≡ true) × (last ≡ age_at now (created v))) vs
  unfolding ages
  ages_attained s [] oldest last f = inl f
  ages_attained s (v ∷ vs) oldest last f = elim (ages_attained s vs (note_age v oldest) last f) [
    | inr later ↦ inr (inr later)
    | inl noted ↦ note_attained noted
  ]
    where
      age : ℤ
      age = age_at now (created v)

      note_attained :
          note_age v oldest s ≡ some last
          → (oldest s ≡ some last)
            ⊎ Exists (λ v. (has_status v s ≡ true) × (last ≡ age_at now (created v))) (v ∷ vs)
      note_attained noted = elim (Bool-cases (has_status v s)) [
        | inr other ↦ inl (ground (arith, noted, other))
        | inl mine ↦ elim (Option-cases (oldest s)) [
          | inl e ↦ inr (inl (mine, ground (arith, noted, mine, e)))
          | inr (old, e) ↦ elim (Bool-cases (ltb_ℤ age old)) [
            | inl less ↦ inr (inl (mine, ground (arith, noted, mine, e, less)))
            | inr more ↦ inl (ground (arith, noted, mine, e, more))
          ]
        ]
      ]

abbrev pub nothing_noted : {S : Type 0} → S → Option ℤ
nothing_noted s = none

abbrev pub wallet_has : Wallet → WalletStatus → Bool
wallet_has w = same_wallet_status w.status

abbrev pub authorization_has : PaymentAuthorization → AuthorizationStatus → Bool
authorization_has a = same_status a.status

-- `oldestWalletAgeByStatus` and `oldestAuthorizationAgeByStatus`
unfoldable pub oldest_wallet_age_by_status : ℕ → MoneyStore → WalletStatus → Option ℤ
oldest_wallet_age_by_status now s =
    ages wallet_has (λ w. w.created_at) now (values s.wallets) nothing_noted

unfoldable pub oldest_authorization_age_by_status : ℕ → MoneyStore → AuthorizationStatus → Option ℤ
oldest_authorization_age_by_status now s =
    ages authorization_has (λ a. a.created_at) now (values s.authorizations) nothing_noted

-- `countWalletsByStatus` and `countAuthorizationsByStatus`
unfoldable pub count_wallets_by_status : MoneyStore → WalletStatus → ℕ
count_wallets_by_status s = counts wallet_has (λ w. w.created_at) 0 (values s.wallets) (λ _. 0)

unfoldable pub count_authorizations_by_status : MoneyStore → AuthorizationStatus → ℕ
count_authorizations_by_status s =
    counts authorization_has (λ a. a.created_at) 0 (values s.authorizations) (λ _. 0)

-- The age that is reported of the wallets of a status is the age of one of them and at most the age of each: it
-- is that of the newest, not of the oldest.
pub oldest_wallet_age_is_least :
    (now : ℕ) (s : MoneyStore) (status : WalletStatus) (age : ℤ)
    → oldest_wallet_age_by_status now s status ≡ some age
    → Exists
        (λ w. (wallet_has w status ≡ true) × (age ≡ age_at now w.created_at))
        (values s.wallets)
      × All (λ w. wallet_has w status ≡ true → age ≤ℤ age_at now w.created_at) (values s.wallets)
unfolding oldest_wallet_age_by_status
oldest_wallet_age_is_least now s status age h =
    let attained =
      ages_attained wallet_has (λ w. w.created_at) now status (values s.wallets) nothing_noted age
        h in
    (
      elim attained [ inl at_first ↦ absurd (ground (arith, at_first)) | inr one ↦ one ],
      ages_least wallet_has (λ w. w.created_at) now status (values s.wallets) nothing_noted age h,
    )
