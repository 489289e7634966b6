-- ===== src/Platform/UnitOfWork/Parts.antt =====
-- src/platform/eventing/unit-of-work.ts: a module's work on the unit of work of another, as when a
-- fulfillment is closed and its hold settled in one transaction. The state `T` of the caller has the
-- state `S` of the module as a part.
pub mod Kept
use wasla_core.Base.{List, [], ◌∷◌, ◌++◌, map}
use wasla_core.Platform.Errors.{Failure, Result, ok, err}
use wasla_core.Platform.UnitOfWork.{System, Check, Scope, Staged, Work, defer}

module _ {S T : Type 0} (part : T → S) (with_part : S → T → T) where
  abbrev pub part_of : System T → System S
  part_of sys = record {
    store = part sys.store;
    outbox = sys.outbox;
    audit_log = sys.audit_log;
    next_id = sys.next_id;
    now = sys.now;
  }

  abbrev pub check_part : Check S → Check T
  check_part c = record { key = c.key; run = λ s. c.run (part s) }

  -- The checks that a mutation of the part defers join those of the transaction.
  unfoldable pub defer_parts : List (Check S) → Scope T → Scope T
  unfolding defer
  defer_parts [] scope = scope
  defer_parts (c ∷ cs) scope = defer_parts cs (defer (check_part c) scope)

  abbrev pub rejoin : Scope S → Scope T → Scope T
  rejoin done scope =
      defer_parts done.deferred (record scope { store = with_part done.store scope.store })

  unfoldable pub mutate_part : (Scope S → Result (Scope S)) → Scope T → Result (Scope T)
  unfolding defer_parts
  mutate_part m scope = elim (m (record { store = part scope.store; deferred = [] })) [
    | ok done ↦ ok (rejoin done scope)
    | err e ↦ err e
  ]

  abbrev pub add_part : Staged S → Staged T → Staged T
  add_part more staged = record {
    mutations = staged.mutations ++ map mutate_part more.mutations;
    events = staged.events ++ more.events;
    audits = staged.audits ++ more.audits;
    next_id = more.next_id;
  }

  -- The part's work, staged behind what the caller has staged.
  unfoldable pub within : {A : Type 0} → Work S A → Work T A
  unfolding mutate_part
  within m sys staged =
      elim (m (part_of sys)
        (record { mutations = []; events = []; audits = []; next_id = staged.next_id })) [
          | ok (a, more) ↦ ok (a, add_part more staged)
          | err e ↦ err e
        ]
