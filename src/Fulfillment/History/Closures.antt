-- ===== src/Fulfillment/History/Closures.antt =====
-- src/modules/fulfillment/service.ts: what holds of closures in every history, stale reads and lost races included.
use wasla_core.Base.{ℕ, Option, some, ◌≡◌, refl, sym, ap, subst, ◌∙◌, List, [], ◌∷◌}
use wasla_core.Base.Table.{get, values, IsKeyed, AllBelow, AllBelow-le}
use wasla_core.Fulfillment.Domain.{Fulfillment}
use wasla_core.Fulfillment.History.{
  Command, order_created, job_accepted, job_rejected, job_reported, cancels, perform, Elsewhere,
  History, starts, commands, others, Past, now, before,
}
use wasla_core.Fulfillment.Moves.{rows, IsTidy}
use wasla_core.Fulfillment.Moves.Kept.{Kept, IsRead, present}
use wasla_core.Fulfillment.Moves.Settling.{AreDiscreet}
use wasla_core.Fulfillment.Moves.Steps.{
  consume_market_order-Kept, consume_job_accepted-Kept, consume_job_rejected-Kept,
  consume_move_completion-Kept, cancel-Kept,
}
use wasla_core.Fulfillment.Payments.{Coordination, FulfillmentPaymentPort}
use wasla_core.Fulfillment.Turn.{closures, SameClosure, IsClosed}
use wasla_core.Fulfillment.Turn.Invariant.{
  IsRuled, Tidy, Older, Older-refl, Older-trans, closed_count, fulfillment_key,
}

pub perform-Kept :
    (payments : Option FulfillmentPaymentPort) (c : Command) (seen sys : Coordination)
    → AreDiscreet payments
    → IsRead seen sys
    → Kept sys (perform payments c seen sys).1
unfolding perform
perform-Kept payments (order_created event payload) seen sys d read =
    consume_market_order-Kept seen sys read payments d event payload
perform-Kept payments (job_accepted event payload) seen sys d read =
    consume_job_accepted-Kept seen sys read event payload
perform-Kept payments (job_rejected event payload) seen sys d read =
    consume_job_rejected-Kept seen sys read payments d event payload
perform-Kept payments (job_reported event payload) seen sys d read =
    consume_move_completion-Kept seen sys read payments d event payload
perform-Kept payments (cancels input) seen sys d read = cancel-Kept seen sys read payments d input

pub others-Kept : (sys sys' : Coordination) → Elsewhere sys sys' → IsTidy sys → Kept sys sys'
others-Kept sys sys' e tidy = record {
  tidy = record {
    sent = e.sent tidy.sent;
    keyed = subst (IsKeyed fulfillment_key) (sym e.rows) tidy.keyed;
    below =
        subst (AllBelow fulfillment_key sys'.next_id) (sym e.rows)
          (AllBelow-le fulfillment_key sys.next_id sys'.next_id (rows sys) e.later tidy.below);
    counted = λ k. e.closures k ∙ tidy.counted k ∙ ap (λ t. closed_count (get k t)) (sym e.rows);
  };
  older = subst (Older (rows sys)) (sym e.rows) (Older-refl (rows sys));
  ruled = subst IsRuled (sym e.rows);
}

starts-Tidy : (sys : Coordination) → rows sys ≡ [] → sys.outbox ≡ [] → IsTidy sys
unfolding get closures values
starts-Tidy sys none_yet nothing_sent =
    subst (λ t. Tidy sys.next_id t sys.outbox) (sym none_yet)
      (subst (Tidy sys.next_id []) (sym nothing_sent) (record {
        sent = record { keyed = tt; below = tt };
        keyed = tt;
        below = tt;
        counted = λ k. refl;
      }))

-- Whatever state of the run is read, the present one is as `IsRead` says.
unfoldable pub AllRead : List Coordination → Type 0
AllRead [] = Unit
AllRead (sys ∷ past) =
    IsTidy sys × ((seen : Coordination) → Past seen (sys ∷ past) → IsRead seen sys)

next-AllRead :
    (sys sys' : Coordination) (past : List Coordination)
    → AllRead (sys ∷ past)
    → Kept sys sys'
    → AllRead (sys' ∷ sys ∷ past)
unfolding AllRead
next-AllRead sys sys' past reads kept = (kept.tidy, read_from)
  where
    read_from : (seen : Coordination) → Past seen (sys' ∷ sys ∷ past) → IsRead seen sys'
    read_from _ (now _) = present sys' kept.tidy
    read_from seen (before _ _ earlier) =
        let read = reads.1 seen earlier in
        record {
          tidy = kept.tidy;
          keyed = read.keyed;
          older = Older-trans (rows seen) (rows sys) (rows sys') read.older kept.older;
        }

pub History-AllRead :
    (payments : Option FulfillmentPaymentPort) (run : List Coordination)
    → AreDiscreet payments
    → History payments run
    → AllRead run
unfolding AllRead
History-AllRead payments _ d (starts sys none_yet nothing_sent) =
    let tidy = starts-Tidy sys none_yet nothing_sent in (tidy, read_from tidy)
  where
    read_from : IsTidy sys → (seen : Coordination) → Past seen (sys ∷ []) → IsRead seen sys
    read_from tidy _ (now _) = present sys tidy
    read_from tidy seen (before _ _ earlier) = elim earlier [ ]
History-AllRead payments _ d (commands c seen sys past read run) =
    let reads = History-AllRead payments (sys ∷ past) d run in
    next-AllRead sys (perform payments c seen sys).1 past reads
      (perform-Kept payments c seen sys d (reads.1 seen read))
History-AllRead payments _ d (others sys sys' past e run) =
    let reads = History-AllRead payments (sys ∷ past) d run in
    next-AllRead sys sys' past reads (others-Kept sys sys' e reads.0)

-- In every run of the commands among the work of other modules, whatever earlier state each command has
-- read, the outbox has for each identifier one closure event if its fulfillment is closed and none if it is open or
-- there is none, where the money module emits no closure event.
pub closed_once :
    (payments : Option FulfillmentPaymentPort) (sys : Coordination) (past : List Coordination)
    → AreDiscreet payments
    → History payments (sys ∷ past)
    → (k : ℕ) → closures k (values sys.outbox) ≡ closed_count (get k (rows sys))
unfolding AllRead
closed_once payments sys past d run k = (History-AllRead payments (sys ∷ past) d run).0.counted k

-- In every such run, a fulfillment that was closed in an earlier state is closed in the present one, with the same
-- status, settlement, time and reason of its closure, where the money module emits no closure event.
pub closed_for_good :
    (payments : Option FulfillmentPaymentPort) (sys : Coordination) (past : List Coordination)
    → AreDiscreet payments
    → History payments (sys ∷ past)
    → (seen : Coordination) → Past seen (sys ∷ past)
    → (k : ℕ) (f : Fulfillment) → get k (rows seen) ≡ some f
    → IsClosed f
    → (f' : Fulfillment) × (get k (rows sys) ≡ some f') × SameClosure f f'
unfolding AllRead
closed_for_good payments sys past d run seen earlier =
    ((History-AllRead payments (sys ∷ past) d run).1 seen earlier).older
