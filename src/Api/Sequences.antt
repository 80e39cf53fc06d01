-- ===== src/Api/Sequences.antt =====
-- What a transaction of internal/api/server.go comes to: its operations, one after the other.
use my_etcd.Base.{
  ℕ, ◌+◌, ◌≡◌, sym, ap, ◌∙◌, Bool, false, none, some, Option, List, [], Bytes, bytes_eq,
  if◌then◌else◌, arith, eq_self,
}
use my_etcd.Base.Words.{ℤ}
use my_etcd.Base.GoMap.{GoMap, lookup, insert, delete, lookup-insert, delete-insert}
use my_etcd.Base.Result.{Result, ok, err}
use my_etcd.Storage.Data.{
  EngineError, engine_closed, txn_not_found, invalid_txn, Transaction, txn_pending,
  apply_operations,
}
use my_etcd.Storage.Engine.{WalWrapper, Engine}
use my_etcd.Storage.Queries.{
  is_pending, begin_transaction, commit_transaction, rollback_transaction,
}
use my_etcd.Api.Requests.{
  method_post, TxnRequest, OpRequest, OpResult, ApiError, HttpResponse, status_ok, internal_error,
  engine_error, txn_body,
}
use my_etcd.Api.Server.{Server}
use my_etcd.Api.Transactions.{
  check_conditions, run_operations, finish_transaction, run_transaction, handle_transaction,
}
use my_etcd.Api.Sessions.{with_txns, at_server, check_conditions-Apart, run_operations-Apart}
use my_etcd.Api.Openness.{check_conditions-closed, run_operations-closed}

-- The answer to the operations' results.
abbrev pub answer : Bool → Result ApiError (List OpResult) → HttpResponse
answer met (ok rs) = status_ok (txn_body met rs)
answer met (err x) = internal_error x

abbrev empty_txn : ℤ → Bytes → Transaction
empty_txn now id = record { id = id; operations = []; timestamp = now; status = txn_pending }

module _ {W : Type 0} (now t : ℤ) (id : Bytes) (e : Engine W) where
  begun : Engine W
  begun = with_txns (insert id (empty_txn t id) e.transactions) e

  lookup-begun : lookup id (insert id (empty_txn t id) e.transactions) ≡ some (empty_txn t id)
  lookup-begun = lookup-insert id id (empty_txn t id) e.transactions ∙ ground (arith, eq_self id)

  removed :
      lookup id e.transactions ≡ none
      → with_txns (delete id (insert id (empty_txn t id) e.transactions)) e ≡ e
  removed absent =
      ap (λ (m : GoMap Bytes Transaction). with_txns m e)
        (delete-insert id (empty_txn t id) e.transactions absent)

  commit-begun :
      e.closed ≡ false
      → lookup id e.transactions ≡ none
      → commit_transaction now id begun ≡ (e, ok tt)
  unfolding begun commit_transaction apply_operations
  commit-begun open_ absent =
      ap (λ (b : Bool). ending b (lookup id begun.transactions)) open_
      ∙ ap (ending false) lookup-begun
      ∙ ap (λ (x : Engine W). (x, ok tt)) (removed absent)
    where
      ending : Bool → Option Transaction → Engine W × Result EngineError (Unit {0})
      ending b found = if b then (begun, err engine_closed) else elim found [
        | none ↦ (begun, err txn_not_found)
        | some txn ↦
            if is_pending txn.status
            then (
              record begun {
                data_map = apply_operations now txn.operations begun.data_map;
                transactions = delete id begun.transactions;
              },
              ok tt,
            )
            else (begun, err invalid_txn)
      ]

  rollback-begun :
      e.closed ≡ false
      → lookup id e.transactions ≡ none
      → rollback_transaction id begun ≡ (e, ok tt)
  unfolding begun rollback_transaction
  rollback-begun open_ absent =
      ap (λ (b : Bool). ending b (lookup id begun.transactions)) open_
      ∙ ap (ending false) lookup-begun
      ∙ ap (λ (x : Engine W). (x, ok tt)) (removed absent)
    where
      ending : Bool → Option Transaction → Engine W × Result EngineError (Unit {0})
      ending b found = if b then (begun, err engine_closed) else elim found [
        | none ↦ (begun, err txn_not_found)
        | some txn ↦ (record begun { transactions = delete id begun.transactions }, ok tt)
      ]

module _ {W : Type 0} (ops : WalWrapper W) where
  finish_begun :
      (now t : ℤ) (id : Bytes) (met : Bool) (s : Server W) (r : Result ApiError (List OpResult))
      → s.engine.closed ≡ false
      → lookup id s.engine.transactions ≡ none
      → finish_transaction ops now id met
          (at_server (insert id (empty_txn t id) s.engine.transactions) s, r)
        ≡ (s, answer met r)
  unfolding finish_transaction begun
  finish_begun now t id met s (ok rs) open_ absent =
      ap
        (λ (p : Engine W × Result EngineError (Unit {0})).
          elim p.1 as (λ _. Server W × HttpResponse) [
            | err x ↦ (record s { engine = p.0 }, internal_error (engine_error x))
            | ok u ↦ (record s { engine = p.0 }, status_ok (txn_body met rs))
          ])
        (commit-begun now t id s.engine open_ absent)
  finish_begun now t id met s (err x) open_ absent =
      ap
        (λ (p : Engine W × Result EngineError (Unit {0})).
          (record s { engine = p.0 }, internal_error x))
        (rollback-begun now t id s.engine open_ absent)

  -- The loop, run beside another table of transactions.
  run_begun :
      (times : ℕ → ℕ → ℤ) (requests : List OpRequest) (now t : ℤ) (id : Bytes) (met : Bool)
      (s : Server W)
      → s.engine.closed ≡ false
      → lookup id s.engine.transactions ≡ none
      → finish_transaction ops now id met (
          run_operations ops times requests
            (at_server (insert id (empty_txn t id) s.engine.transactions) s))
        ≡ (
          (run_operations ops times requests s).0,
          answer met (run_operations ops times requests s).1,
        )
  run_begun times requests now t id met s open_ absent =
      let (s', r) = run_operations ops times requests s in
      let same : s'.engine.transactions ≡ s.engine.transactions =
        ap (λ (p : Server W × Result ApiError (List OpResult)). p.0.engine.transactions)
          (run_operations-Apart ops times requests s.engine.transactions s) in
      ap (finish_transaction ops now id met) (
        run_operations-Apart ops times requests (insert id (empty_txn t id) s.engine.transactions)
          s)
      ∙ ap
          (λ (m : GoMap Bytes Transaction).
            finish_transaction ops now id met (at_server (insert id (empty_txn t id) m) s', r))
          (sym same)
      ∙ finish_begun now t id met s' r (run_operations-closed ops times requests s ∙ open_)
          (ap (lookup id) same ∙ absent)

  begin_open :
      (clock : ℕ → ℤ) (times : ℕ → ℕ → ℤ) (id : Bytes) (txn : TxnRequest) (s : Server W)
      → s.engine.closed ≡ false
      → handle_transaction ops clock times id method_post (some txn) s
        ≡ run_transaction ops clock times id txn
            (at_server (insert id (empty_txn (clock 0) id) s.engine.transactions) s)
  unfolding handle_transaction begin_transaction
  begin_open clock times id txn s open_ = ap (λ (b : Bool). on (beginning b)) open_
    where
      beginning : Bool → Engine W × Result EngineError Transaction
      beginning b = if b then (s.engine, err engine_closed) else (
        with_txns (insert id (empty_txn (clock 0) id) s.engine.transactions) s.engine,
        ok (empty_txn (clock 0) id),
      )

      on : Engine W × Result EngineError Transaction → Server W × HttpResponse
      on p = elim p.1 [
        | err x ↦ (record s { engine = p.0 }, internal_error (engine_error x))
        | ok t ↦ run_transaction ops clock times id txn (record s { engine = p.0 })
      ]

  -- What handleTransaction does on an open engine whose table of transactions lacks the new ID: it
  -- evaluates the conditions and runs the operations of the chosen branch, one after the other, up to
  -- the first that fails, exactly as if they were called with no transaction around them, and leaves
  -- the state that they leave. In particular the commit changes nothing, and after a failed operation
  -- the rollback undoes nothing: the effects of the operations before it stay. The answer has the
  -- results and whether the conditions were met, or the error of the failed operation.
  pub transaction_is_sequence :
      (clock : ℕ → ℤ) (times : ℕ → ℕ → ℤ) (id : Bytes) (txn : TxnRequest) (s : Server W)
      → s.engine.closed ≡ false
      → lookup id s.engine.transactions ≡ none
      → handle_transaction ops clock times id method_post (some txn) s ≡ (
          let (s', met) = check_conditions ops (λ i. clock (i + 2)) txn.compare s in
          let (s'', result) =
            run_operations ops times (if met then txn.success else txn.failure) s' in
          (s'', answer met result))
  unfolding handle_transaction run_transaction begin_transaction
  transaction_is_sequence clock times id txn s open_ absent =
      let conds = check_conditions ops (λ i. clock (i + 2)) txn.compare in
      let (s', met) = conds s in
      let started = insert id (empty_txn (clock 0) id) s.engine.transactions in
      let same : s'.engine.transactions ≡ s.engine.transactions =
        ap (λ (p : Server W × Bool). p.0.engine.transactions)
          (check_conditions-Apart ops (λ i. clock (i + 2)) txn.compare s.engine.transactions s) in
      let branch = if met then txn.success else txn.failure in
      begin_open clock times id txn s open_
      ∙ ap
          (λ (p : Server W × Bool).
            finish_transaction ops (clock 1) id p.1
              (run_operations ops times (if p.1 then txn.success else txn.failure) p.0))
          (check_conditions-Apart ops (λ i. clock (i + 2)) txn.compare started s)
      ∙ ap
          (λ (m : GoMap Bytes Transaction).
            finish_transaction ops (clock 1) id met (
              run_operations ops times branch
                (at_server (insert id (empty_txn (clock 0) id) m) s')))
          (sym same)
      ∙ run_begun times branch (clock 1) (clock 0) id met s'
          (check_conditions-closed ops (λ i. clock (i + 2)) txn.compare s ∙ open_)
          (ap (lookup id) same ∙ absent)
