-- ===== src/Money/Step/Solvent/Kept.antt =====
-- src/modules/money/service.ts: no step, and no passing of time, takes what is available of a wallet
-- below zero.
use wasla_core.Base.{
  ℕ, ◌≤◌, Option, none, some, Bool, true, false, ◌≡◌, arith, if◌then◌else◌, ◌==◌, Bool-cases, inl,
  inr,
}
use wasla_core.Base.Int.{ℤ, pos, ◌+ℤ◌, ◌-ℤ◌, -ℤ◌, ◌≤ℤ◌, ◌<ℤ◌, int_laws}
use wasla_core.Base.Sums.{sum-mono, sum-put_new, sum-put_old}
use wasla_core.Base.Table.{get, values, AllRows-get, AllRows-values, get-above}
use wasla_core.Money.Domain.{
  wallet_account, clearing_external, clearing_captured, authorized, Wallet, PaymentAuthorization,
  capture_kind, refund_kind, credit_kind,
}
use wasla_core.Money.Holds.Captures.{captured_row}
use wasla_core.Money.Holds.Refunds.{refunded_row}
use wasla_core.Money.Holds.Voids.{closed_row}
use wasla_core.Money.Service.{balance_of_wallet, is_expired, posting}
use wasla_core.Money.Service.Authorizing.{new_authorization}
use wasla_core.Money.Store.{MoneyStore}
use wasla_core.Money.Store.Writes.{with_wallet, with_authorization, with_transaction_row}
use wasla_core.Money.Step.{
  Ask, Step, stays, opens, credits, authorizes, captures, refunds, releases,
}
use wasla_core.Money.Step.Solvent.{
  posted_sum, held_sum, hold_part, posted_part, available-sums, posted-credit, posted-refund,
  posted-capture, hold_part-nonneg, hold_part-later, hold_part-new, hold_part-captured,
  hold_part-refunded, hold_part-closed,
}
use wasla_core.Money.Step.Sound.{Sound, Shaped}
use wasla_core.Money.Step.Sound.Kept.{held-get}

-- The sums before and after a capture, and before and after a refund.
module _ (p h p' h' part before after amount : ℤ) (grown : p' ≡ p +ℤ part)
    (exchanged : h' +ℤ before ≡ h +ℤ after) where
  capture_keeps :
      (mine : Bool)
      → part ≡ (if mine then -ℤ◌ amount else pos 0)
      → after ≡ before -ℤ (if mine then amount else pos 0)
      → p -ℤ h ≤ℤ p' -ℤ h'
  capture_keeps true e f = grind (int_laws, grown, exchanged, e, f)
  capture_keeps false e f = grind (int_laws, grown, exchanged, e, f)

  refund_adds :
      (mine : Bool)
      → part ≡ (if mine then amount else pos 0)
      → pos 0 <ℤ amount
      → after ≡ before
      → p -ℤ h ≤ℤ p' -ℤ h'
  refund_adds true e positive f = grind (int_laws, grown, exchanged, e, f)
  refund_adds false e positive f = grind (int_laws, grown, exchanged, e, f)

-- No wallet holds more than was posted to it.
abbrev pub Solvent : ℕ → MoneyStore → Type 0
Solvent now s = (wallet_id : ℕ) → pos 0 ≤ℤ (balance_of_wallet now wallet_id s).available_minor

pub later-Solvent :
    (now later n : ℕ) (s : MoneyStore) → now ≤ later → Sound n s → Solvent now s → Solvent later s
later-Solvent now later n s le h solvent wallet_id =
    let less =
      sum-mono Shaped (hold_part later wallet_id) (hold_part now wallet_id)
        (λ a shape. hold_part-later now later wallet_id a le shape) (values s.authorizations)
        (AllRows-values Shaped s.authorizations h.shaped) in
    let before = available-sums now wallet_id s in
    let after = available-sums later wallet_id s in
    let enough = solvent wallet_id in grind (int_laws, less, before, after, enough)

module _ (now n : ℕ) (s : MoneyStore) (h : Sound n s) (solvent : Solvent now s)
    (wallet_id : ℕ) where
  -- What a step must show of the two sums.
  enough :
      (s' : MoneyStore)
      → posted_sum wallet_id s.ledger -ℤ held_sum now wallet_id s.authorizations
        ≤ℤ posted_sum wallet_id s'.ledger -ℤ held_sum now wallet_id s'.authorizations
      → pos 0 ≤ℤ (balance_of_wallet now wallet_id s').available_minor
  enough s' le =
      let before = available-sums now wallet_id s in
      let after = available-sums now wallet_id s' in
      let was = solvent wallet_id in grind (int_laws, before, after, was, le)

  opens-Solvent :
      (w : Wallet) → pos 0 ≤ℤ (balance_of_wallet now wallet_id (with_wallet w s)).available_minor
  opens-Solvent w = enough (with_wallet w s) (omega arith)

  free_row : (tid : ℕ) → n ≤ tid → get tid s.ledger ≡ none
  free_row tid fresh =
      get-above (λ t. t.transaction_id) n tid s.ledger h.ledger.keyed h.ledger.below fresh

  credits-Solvent :
      (w : Wallet) (tid e1 e2 : ℕ) (reference : _) (amount : ℤ)
      → n ≤ tid
      → pos 0 <ℤ amount
      → pos 0
        ≤ℤ (balance_of_wallet now wallet_id (
            with_transaction_row
              (posting now tid e1 e2 credit_kind reference w.currency
                (wallet_account w.wallet_id)
                clearing_external
                amount
                none)
              s)).available_minor
  credits-Solvent w tid e1 e2 reference amount fresh positive =
      let t =
        posting now tid e1 e2 credit_kind reference w.currency (wallet_account w.wallet_id)
          clearing_external amount none in
      let grown = sum-put_new (posted_part wallet_id) tid t s.ledger (free_row tid fresh) in
      let added =
        posted-credit now tid e1 e2 credit_kind reference w.currency w.wallet_id amount none
          wallet_id in
      enough (with_transaction_row t s) (grind (int_laws, grown, added, positive))

  authorizes-Solvent :
      (w : Wallet) (new_id : ℕ) (amount : ℤ) (reference : _) (expires_at : Option ℕ)
      → n ≤ new_id
      → pos 0 <ℤ amount
      → amount ≤ℤ (balance_of_wallet now w.wallet_id s).available_minor
      → pos 0
        ≤ℤ (balance_of_wallet now wallet_id (
            with_authorization
              (new_authorization new_id now w amount reference expires_at)
              s)).available_minor
  authorizes-Solvent w new_id amount reference expires_at fresh positive fits =
      let a = new_authorization new_id now w amount reference expires_at in
      let free =
        get-above (λ a. a.authorization_id) n new_id s.authorizations h.authorizations.keyed
          h.authorizations.below fresh in
      let grown = sum-put_new (hold_part now wallet_id) new_id a s.authorizations free in
      let added = hold_part-new now wallet_id new_id w amount reference expires_at positive in
      let before = available-sums now wallet_id s in
      let after = available-sums now wallet_id (with_authorization a s) in
      let was = solvent wallet_id in
      elim (Bool-cases (w.wallet_id == wallet_id)) [
        | inl e ↦ grind (int_laws, grown, added, before, after, was, fits, e)
        | inr e ↦ grind (int_laws, grown, added, before, after, was, e)
      ]

  captures-Solvent :
      (a : PaymentAuthorization) (tid e1 e2 : ℕ) (reference : _) (amount : ℤ)
      → get a.authorization_id s.authorizations ≡ some a
      → a.status ≡ authorized
      → is_expired now a ≡ false
      → n ≤ tid
      → pos 0
        ≤ℤ (balance_of_wallet now wallet_id (
            with_transaction_row
              (posting now tid e1 e2 capture_kind reference a.currency clearing_captured
                (wallet_account a.wallet_id)
                amount
                (some a.authorization_id))
              (with_authorization (captured_row now amount a) s))).available_minor
  captures-Solvent a tid e1 e2 reference amount here open_ live fresh =
      let t =
        posting now tid e1 e2 capture_kind reference a.currency clearing_captured
          (wallet_account a.wallet_id) amount (some a.authorization_id) in
      let updated = captured_row now amount a in
      let grown = sum-put_new (posted_part wallet_id) tid t s.ledger (free_row tid fresh) in
      let taken =
        posted-capture now tid e1 e2 capture_kind reference a.currency a.wallet_id amount
          (some a.authorization_id) wallet_id in
      let exchanged =
        sum-put_old (hold_part now wallet_id) updated.authorization_id updated a s.authorizations
          (unfold captured_row in here) in
      let released = hold_part-captured now wallet_id a amount open_ live in
      enough (with_transaction_row t (with_authorization updated s)) (
        capture_keeps _ _ _ _ _ _ _ amount grown exchanged (a.wallet_id == wallet_id) taken
          released)

  refunds-Solvent :
      (a : PaymentAuthorization) (tid e1 e2 : ℕ) (reference : _) (amount : ℤ)
      → get a.authorization_id s.authorizations ≡ some a
      → n ≤ tid
      → pos 0 <ℤ amount
      → pos 0
        ≤ℤ (balance_of_wallet now wallet_id (
            with_transaction_row
              (posting now tid e1 e2 refund_kind reference a.currency
                (wallet_account a.wallet_id)
                clearing_captured
                amount
                (some a.authorization_id))
              (with_authorization (refunded_row amount a) s))).available_minor
  refunds-Solvent a tid e1 e2 reference amount here fresh positive =
      let t =
        posting now tid e1 e2 refund_kind reference a.currency (wallet_account a.wallet_id)
          clearing_captured amount (some a.authorization_id) in
      let updated = refunded_row amount a in
      let grown = sum-put_new (posted_part wallet_id) tid t s.ledger (free_row tid fresh) in
      let added =
        posted-refund now tid e1 e2 refund_kind reference a.currency a.wallet_id amount
          (some a.authorization_id) wallet_id in
      let exchanged =
        sum-put_old (hold_part now wallet_id) updated.authorization_id updated a s.authorizations
          (unfold refunded_row in here) in
      let unchanged = hold_part-refunded now wallet_id a amount in
      enough (with_transaction_row t (with_authorization updated s)) (
        refund_adds _ _ _ _ _ _ _ amount grown exchanged (a.wallet_id == wallet_id) added positive
          unchanged)

  releases-Solvent :
      (a : PaymentAuthorization) (reason : _)
      → get a.authorization_id s.authorizations ≡ some a
      → pos 0
        ≤ℤ (balance_of_wallet now wallet_id
            (with_authorization (closed_row now reason a) s)).available_minor
  releases-Solvent a reason here =
      let updated = closed_row now reason a in
      let exchanged =
        sum-put_old (hold_part now wallet_id) updated.authorization_id updated a s.authorizations
          (unfold closed_row in here) in
      let closed_part = hold_part-closed now wallet_id a reason in
      let held =
        hold_part-nonneg now wallet_id a
          (AllRows-get Shaped a.authorization_id a s.authorizations h.shaped here) in
      enough (with_authorization updated s) (grind (int_laws, exchanged, closed_part, held))

pub Step-Solvent :
    (ask : Ask) (now n n' : ℕ) (s s' : MoneyStore)
    → Step ask now n s n' s'
    → Sound n s
    → Solvent now s
    → Solvent now s'
unfolding captured_row refunded_row closed_row
Step-Solvent ask now n n' s s' (stays le done) h solvent wallet_id = solvent wallet_id
Step-Solvent ask now n n' s s' (opens w asked fresh below) h solvent wallet_id =
    opens-Solvent now n s h solvent wallet_id w
Step-Solvent ask now n n' s s'
      (credits w k tid e1 e2 reference amount asked found fresh below positive) h solvent
      wallet_id =
    credits-Solvent now n s h solvent wallet_id w tid e1 e2 reference amount fresh positive
Step-Solvent ask now n n' s s'
      (authorizes w k new_id amount reference expires_at asked found usable fresh below positive
        shape fits)
      h solvent wallet_id =
    authorizes-Solvent now n s h solvent wallet_id w new_id amount reference expires_at fresh
      positive fits
Step-Solvent ask now n n' s s'
      (captures a k tid e1 e2 reference amount asked found own open_ live fresh below positive shape
        fits)
      h solvent wallet_id =
    captures-Solvent now n s h solvent wallet_id a tid e1 e2 reference amount
      (held-get k a s found own) open_ live fresh
Step-Solvent ask now n n' s s'
      (refunds a k tid e1 e2 reference amount asked found own fresh below positive shape fits) h
      solvent wallet_id =
    refunds-Solvent now n s h solvent wallet_id a tid e1 e2 reference amount
      (held-get k a s found own) fresh positive
Step-Solvent ask now n n' s s' (releases a k reason asked found own open_ shape le) h solvent
      wallet_id =
    releases-Solvent now n s h solvent wallet_id a reason (held-get k a s found own)
