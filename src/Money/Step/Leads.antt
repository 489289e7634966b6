-- ===== src/Money/Step/Leads.antt =====
-- How a command's body is followed to its end: past every point where it may throw, with what is known
-- when it does not.
use wasla_core.Base.{
  ℕ, ◌+◌, ◌≤◌, Option, none, some, ◌≡◌, refl, ap, sym, subst, ◌∙◌, ◌⊎◌, inl, inr, [], ◌∷◌,
  Option-cases, length, arith,
}
use wasla_core.Platform.Errors.{Failure, Result, ok, err, Result-cases}
use wasla_core.Platform.UnitOfWork.{
  Staged, pure, lift, or_throw, reads, ◌>>=◌, ◌>>◌, run_mutations, verify, commit, finish,
  nothing_staged, with_transaction,
}
use wasla_core.Base.Table.{get}
use wasla_core.Money.Domain.{Wallet, PaymentAuthorization}
use wasla_core.Money.Holds.{require_authorization}
use wasla_core.Money.Store.{MoneyStore, MoneyScope}
use wasla_core.Money.Service.{Money, MoneyWork, require_wallet, unless_refused, or_existing}
use wasla_core.Money.Step.{Ask, IsDone, Step, stays}

abbrev pub Leads :
    {A : Type 0} → (A → Staged MoneyStore → Type 0) → Result (A × Staged MoneyStore) → Type 0
Leads Q (err e) = Unit
Leads Q (ok (a, staged)) = Q a staged

module _ {A : Type 0} (Q : A → Staged MoneyStore → Type 0) (sys : Money)
    (staged : Staged MoneyStore) where
  pub unless_refused-Leads :
      (r : Option Failure) (k : MoneyWork A)
      → (r ≡ none → Leads Q (k sys staged))
      → Leads Q ((unless_refused r >> k) sys staged)
  unfolding ◌>>=◌
  unless_refused-Leads none k h = h refl
  unless_refused-Leads (some e) k h = tt

  pub or_throw-Leads :
      {B : Type 0} (o : Option B) (e : Failure) (k : B → MoneyWork A)
      → ((b : B) → o ≡ some b → Leads Q (k b sys staged))
      → Leads Q ((or_throw o e >>= k) sys staged)
  unfolding ◌>>=◌
  or_throw-Leads none e k h = tt
  or_throw-Leads (some b) e k h = h b refl

  -- Past a part that cannot throw.
  pub bind-Leads :
      {B : Type 0} (m : MoneyWork B) (b : B) (staged' : Staged MoneyStore) (k : B → MoneyWork A)
      → m sys staged ≡ ok (b, staged')
      → Leads Q (k b sys staged')
      → Leads Q ((m >>= k) sys staged)
  unfolding ◌>>=◌
  bind-Leads m b staged' k e h =
      subst (λ r. Leads Q (elim r [ ok (b, s) ↦ k b sys s | err e ↦ err e ])) (sym e) h

  pub lift-Leads :
      {B : Type 0} (r : Result B) (k : B → MoneyWork A)
      → ((b : B) → r ≡ ok b → Leads Q (k b sys staged))
      → Leads Q ((lift r >>= k) sys staged)
  unfolding ◌>>=◌
  lift-Leads (ok b) k h = h b refl
  lift-Leads (err e) k h = tt

  pub reads-Leads :
      {B : Type 0} (f : Money → B) (k : B → MoneyWork A)
      → Leads Q (k (f sys) sys staged)
      → Leads Q ((reads f >>= k) sys staged)
  unfolding ◌>>=◌
  reads-Leads f k h = h

  pub require_wallet-Leads :
      (wallet_id : ℕ) (k : Wallet → MoneyWork A)
      → ((w : Wallet) → get wallet_id sys.store.wallets ≡ some w → Leads Q (k w sys staged))
      → Leads Q ((require_wallet wallet_id >>= k) sys staged)
  unfolding ◌>>=◌
  require_wallet-Leads wallet_id k h = or_throw-Leads (get wallet_id sys.store.wallets) _ k h

  pub require_authorization-Leads :
      (authorization_id : ℕ) (k : PaymentAuthorization → MoneyWork A)
      → ((a : PaymentAuthorization)
          → get authorization_id sys.store.authorizations ≡ some a
          → Leads Q (k a sys staged))
      → Leads Q ((require_authorization authorization_id >>= k) sys staged)
  unfolding ◌>>=◌
  require_authorization-Leads authorization_id k h =
      or_throw-Leads (get authorization_id sys.store.authorizations) _ k h

  pub or_existing-Leads :
      {B : Type 0} (o : Option B) (found : B → MoneyWork A) (new : MoneyWork A)
      → ((b : B) → o ≡ some b → Leads Q (found b sys staged))
      → (o ≡ none → Leads Q (new sys staged))
      → Leads Q (or_existing o found new sys staged)
  unfolding or_existing
  or_existing-Leads none found new f g = g refl
  or_existing-Leads (some b) found new f g = f b refl

-- What the staged mutations, if they succeed, make of the store.
pub record Makes {A : Type 0} (ask : Ask) (sys : Money) (a : A) (staged : Staged MoneyStore)
    : Type 0 where
  pub later : sys.next_id ≤ staged.next_id + length staged.audits
  pub makes :
      (sc : MoneyScope)
      → run_mutations staged.mutations (record { store = sys.store; deferred = [] }) ≡ ok sc
      → Step ask sys.now sys.next_id sys.store (staged.next_id + length staged.audits) sc.store

abbrev pub begin : Money → MoneyScope
begin sys = record { store = sys.store; deferred = [] }

module _ {A : Type 0} (ask : Ask) (sys : Money) (a : A) (staged : Staged MoneyStore)
    (later : sys.next_id ≤ staged.next_id + length staged.audits) where
  -- Nothing is staged, or a single mutation.
  pub still-Makes : IsDone ask sys.store → staged.mutations ≡ [] → Makes ask sys a staged
  unfolding run_mutations
  still-Makes done h = record { later = later; makes = λ sc e. ground (arith, stays_here) }
    where
      stays_here :
          Step ask sys.now sys.next_id sys.store (staged.next_id + length staged.audits) sys.store
      stays_here = stays later done

  pub one-Makes :
      (m : MoneyScope → Result MoneyScope)
      → staged.mutations ≡ m ∷ []
      → ((sc : MoneyScope)
          → m (begin sys) ≡ ok sc
          → Step ask sys.now sys.next_id sys.store (staged.next_id + length staged.audits) sc.store)
      → Makes ask sys a staged
  unfolding run_mutations
  one-Makes m h k = record {
    later = later;
    makes = λ sc e.
        k sc (single m (begin sys) sc (ap (λ ms. run_mutations ms (begin sys)) (sym h) ∙ e));
  }
    where
      single :
          (m : MoneyScope → Result MoneyScope) (sc sc' : MoneyScope)
          → run_mutations (m ∷ []) sc ≡ ok sc'
          → m sc ≡ ok sc'
      single m sc sc' h = ground arith

-- What a command answers does not matter for what it makes.
pub answer-Leads :
    {A B : Type 0} (ask : Ask) (m : MoneyWork A) (f : A → B) (sys : Money)
    (staged : Staged MoneyStore)
    → Leads (Makes ask sys) (m sys staged)
    → Leads (Makes ask sys) ((m >>= λ a. pure (f a)) sys staged)
unfolding ◌>>=◌
answer-Leads {A} {B} ask m f sys staged h = by_result (m sys staged) h
  where
    by_result :
        (r : Result (A × Staged MoneyStore))
        → Leads (Makes ask sys) r
        → Leads (Makes ask sys) (elim r [ ok (a, s) ↦ ok (f a, s) | err e ↦ err e ])
    by_result (ok (a, s)) h = record { later = h.later; makes = h.makes }
    by_result (err e) h = tt

-- What a command comes to: it throws and leaves everything as it was, or it answers and has made a step.
abbrev pub StepsTo : {A : Type 0} → Ask → Money → Result A × Money → Type 0
StepsTo ask sys (r, sys') =
    ((e : Failure) × (r ≡ err e) × (sys' ≡ sys))
    ⊎ ((sys'.now ≡ sys.now) × Step ask sys.now sys.next_id sys.store sys'.next_id sys'.store)

commit-Makes :
    {A : Type 0} (ask : Ask) (sys : Money) (a : A) (staged : Staged MoneyStore)
    → Makes ask sys a staged
    → StepsTo ask sys (commit a staged sys)
unfolding commit
commit-Makes ask sys a staged h = elim (Result-cases (run_mutations staged.mutations (begin sys))) [
  | inr (f, e) ↦ inl (f, ground (arith, e), ground (arith, e))
  | inl (sc, e) ↦ elim (Option-cases (verify sc.deferred sc.store)) [
    | inr (f, refuses) ↦ inl (f, ground (arith, e, refuses), ground (arith, e, refuses))
    | inl passes ↦ inr (ground (arith, e, passes), ground (arith, e, passes, h.makes sc e))
  ]
]

finish-Makes :
    {A : Type 0} (ask : Ask) (sys : Money) (r : Result (A × Staged MoneyStore))
    → Leads (Makes ask sys) r
    → StepsTo ask sys (finish r sys)
finish-Makes ask sys (ok (a, staged)) h = commit-Makes ask sys a staged h
finish-Makes ask sys (err e) h = inl (e, refl, refl)

-- A command whose body leads to mutations that make a step takes that step, or throws.
pub with_transaction-StepsTo :
    {A : Type 0} (ask : Ask) (fn : MoneyWork A) (sys : Money)
    → Leads (Makes ask sys) (fn sys (nothing_staged sys))
    → StepsTo ask sys (with_transaction fn sys)
unfolding with_transaction
with_transaction-StepsTo ask fn sys h = finish-Makes ask sys (fn sys (nothing_staged sys)) h
