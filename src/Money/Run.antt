-- ===== src/Money/Run.antt =====
-- src/modules/money/service.ts: a history of commands, in any order and with any inputs, from the clock's
-- start on.
use wasla_core.Base.{ℕ, ◌+◌, ◌≡◌, inl, inr, refl, sym, subst, List, [], ◌∷◌, arith}
use wasla_core.Base.Int.{ℤ, pos, int_laws, eq_of_parts}
use wasla_core.Base.Sums.{sum_of}
use wasla_core.Base.Table.{values, AllRows-values}
use wasla_core.Base.{All}
use wasla_core.Money.Domain.{LedgerTransaction, sum_entries, any_entry, assert_balanced}
use wasla_core.Money.Holds.Captures.{CaptureInput, capture}
use wasla_core.Money.Holds.Refunds.{RefundInput, refund}
use wasla_core.Money.Holds.Voids.{VoidInput, void_authorization}
use wasla_core.Money.Service.{Money}
use wasla_core.Money.Service.Wallets.{CreateWalletInput, create_wallet, CreditInput, credit}
use wasla_core.Money.Service.Authorizing.{AuthorizeInput, authorize}
use wasla_core.Money.Step.Commands.{create_wallet-StepsTo, credit-StepsTo}
use wasla_core.Money.Step.Placing.{authorize-StepsTo}
use wasla_core.Money.Step.Holding.{capture-StepsTo}
use wasla_core.Money.Step.Returning.{refund-StepsTo, void_authorization-StepsTo}
use wasla_core.Money.Step.Leads.{StepsTo}
use wasla_core.Money.Step.{Ask, of_wallet, of_credit, of_authorize, of_capture, of_refund, of_void}
use wasla_core.Platform.Errors.{Result}
use wasla_core.Money.Step.Solvent.Kept.{Solvent, Step-Solvent, later-Solvent}
use wasla_core.Money.Step.Sound.Kept.{Step-Sound}
use wasla_core.Money.Step.Sound.{Sound, Balanced}

pub data Command : Type 0 where
  create_wallet_command : CreateWalletInput → Command
  credit_command : CreditInput → Command
  authorize_command : AuthorizeInput → Command
  capture_command : CaptureInput → Command
  refund_command : RefundInput → Command
  void_command : VoidInput → Command
  -- Time passes.
  wait_command : ℕ → Command

unfoldable pub apply : Command → Money → Money
unfolding create_wallet credit authorize capture refund void_authorization
apply (create_wallet_command input) sys = (create_wallet input sys).1
apply (credit_command input) sys = (credit input sys).1
apply (authorize_command input) sys = (authorize input sys).1
apply (capture_command input) sys = (capture input sys).1
apply (refund_command input) sys = (refund input sys).1
apply (void_command input) sys = (void_authorization input sys).1
apply (wait_command ms) sys = record sys { now = sys.now + ms }

unfoldable pub run : List Command → Money → Money
unfolding apply
run [] sys = sys
run (c ∷ cs) sys = run cs (apply c sys)

pub record IsSound (sys : Money) : Type 0 where
  pub sound : Sound sys.next_id sys.store
  pub solvent : Solvent sys.now sys.store

pub StepsTo-IsSound :
    {A : Type 0} (ask : Ask) (sys : Money) (r : Result A × Money)
    → StepsTo ask sys r
    → IsSound sys
    → IsSound r.1
StepsTo-IsSound ask sys (answer, sys') (inl (e, thrown, same)) k = subst IsSound (sym same) k
StepsTo-IsSound ask sys (answer, sys') (inr (time, step)) k = record {
  sound = Step-Sound ask sys.now sys.next_id sys'.next_id sys.store sys'.store step k.sound;
  solvent =
      subst (λ now. Solvent now sys'.store) (sym time)
        (Step-Solvent ask sys.now sys.next_id sys'.next_id sys.store sys'.store step k.sound
          k.solvent);
}

apply-IsSound : (c : Command) (sys : Money) → IsSound sys → IsSound (apply c sys)
unfolding apply
apply-IsSound (create_wallet_command input) sys k =
    StepsTo-IsSound (of_wallet input) sys _ (create_wallet-StepsTo sys input) k
apply-IsSound (credit_command input) sys k =
    StepsTo-IsSound (of_credit input) sys _ (credit-StepsTo sys input) k
apply-IsSound (authorize_command input) sys k =
    StepsTo-IsSound (of_authorize input) sys _ (authorize-StepsTo sys input) k
apply-IsSound (capture_command input) sys k =
    StepsTo-IsSound (of_capture input) sys _
      (capture-StepsTo sys k.sound.wallets.keyed k.sound.authorizations.keyed input) k
apply-IsSound (refund_command input) sys k =
    StepsTo-IsSound (of_refund input) sys _
      (refund-StepsTo sys k.sound.wallets.keyed k.sound.authorizations.keyed input) k
apply-IsSound (void_command input) sys k =
    StepsTo-IsSound (of_void input) sys _
      (void_authorization-StepsTo sys k.sound.wallets.keyed k.sound.authorizations.keyed input) k
apply-IsSound (wait_command ms) sys k = record {
  sound = k.sound;
  solvent =
      later-Solvent sys.now (sys.now + ms) sys.next_id sys.store (omega arith) k.sound k.solvent;
}

-- From a sound state, whatever commands run and however time passes, every row stays well formed, every
-- authorization's amounts are those that its ledger transactions add up to, and no wallet has less than
-- nothing available.
pub run-IsSound : (cs : List Command) (sys : Money) → IsSound sys → IsSound (run cs sys)
unfolding run
run-IsSound [] sys k = k
run-IsSound (c ∷ cs) sys k = run-IsSound cs (apply c sys) (apply-IsSound c sys k)

abbrev pub entries_total : LedgerTransaction → ℤ
entries_total t = sum_entries any_entry t.entries

Balanced-total : (t : LedgerTransaction) → Balanced t → entries_total t ≡ pos 0
unfolding assert_balanced
Balanced-total t h = ground (arith, eq_of_parts (entries_total t) (pos 0))

Balanced-sum : (ts : List LedgerTransaction) → All Balanced ts → sum_of entries_total ts ≡ pos 0
unfolding sum_of
Balanced-sum [] h = refl
Balanced-sum (t ∷ ts) h = grind (int_laws, Balanced-total t h.0, Balanced-sum ts h.1)

-- From a sound state, whatever commands run, the entries of the whole ledger add up to nothing: money is
-- moved between accounts, and none is made or lost.
pub run-BooksBalance :
    (cs : List Command) (sys : Money)
    → IsSound sys
    → sum_of entries_total (values (run cs sys).store.ledger) ≡ pos 0
run-BooksBalance cs sys k =
    Balanced-sum (values (run cs sys).store.ledger)
      (AllRows-values Balanced (run cs sys).store.ledger (run-IsSound cs sys k).sound.balanced)
