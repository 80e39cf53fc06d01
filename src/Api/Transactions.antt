-- ===== src/Api/Transactions.antt =====
-- handleTransaction, checkConditions and executeOperation of internal/api/server.go. The i-th call of
-- the engine reads the clock as `times i`.
use my_etcd.Base.{
  ℕ, ◌+◌, Bool, true, false, ◌||◌, not, none, some, Option, List, [], ◌∷◌, Bytes, bytes_eq,
  bytes_ltb, codes, ◌==◌, if◌then◌else◌,
}
use my_etcd.Base.Words.{ℤ, pos}
use my_etcd.Base.Result.{Result, ok, err}
use my_etcd.Storage.Data.{EngineError, KeyValue}
use my_etcd.Storage.Engine.{WalWrapper, put, delete_key}
use my_etcd.Storage.Queries.{begin_transaction, commit_transaction, rollback_transaction}
use my_etcd.Api.Requests.{
  Method, method_post, Compare, OpRequest, OpResult, put_result, get_result, delete_result,
  ApiError, engine_error, unknown_operation, TxnRequest, HttpResponse, status_ok, bad_request,
  method_not_allowed, internal_error, txn_body,
}
use my_etcd.Api.Server.{Server, Handler, call, call_get, refuse}

-- The switch of checkConditions, on the stored value.
unfoldable pub compare_values : Bytes → Bytes → Bytes → Bool
compare_values op stored wanted =
    if op == codes "="
    then stored == wanted
    else if op == codes "!="
    then not (stored == wanted)
    else if op == codes ">"
    then bytes_ltb wanted stored
    else if op == codes "<"
    then bytes_ltb stored wanted
    else false

-- The body of checkConditions' loop, on what Get returned: whether the loop goes on.
unfoldable pub meets : Compare → Result EngineError KeyValue → Bool
meets cond (ok kv) = compare_values cond.op kv.value cond.value
meets cond (err x) = cond.op == codes "!=" || cond.op == codes ">"

-- The result of an operation, of what the engine returned.
abbrev pub returned :
    {A : Type 0} → (A → OpResult) → Result EngineError A → Result ApiError OpResult
returned f (ok a) = ok (f a)
returned f (err x) = err (engine_error x)

module _ {W : Type 0} (ops : WalWrapper W) where
  -- checkConditions
  unfoldable pub check_conditions : (ℕ → ℤ) → List Compare → Server W → Server W × Bool
  check_conditions clock [] s = (s, true)
  check_conditions clock (cond ∷ conds) s =
      let (s', found) = call_get ops (clock 0) cond.key s in
      let rest = check_conditions (λ i. clock (i + 1)) conds s' in
      if meets cond found then rest else (s', false)

  -- The cases of executeOperation.
  abbrev pub execute_put : (ℕ → ℤ) → OpRequest → Server W → Server W × Result ApiError OpResult
  execute_put clock request s =
      let (s', r) = call (put ops clock request.key request.value (pos 0)) s in
      (s', returned (λ u. put_result request.key request.value) r)

  abbrev pub execute_get : (ℕ → ℤ) → OpRequest → Server W → Server W × Result ApiError OpResult
  execute_get clock request s =
      let (s', r) = call_get ops (clock 0) request.key s in (s', returned get_result r)

  abbrev pub execute_delete : (ℕ → ℤ) → OpRequest → Server W → Server W × Result ApiError OpResult
  execute_delete clock request s =
      let (s', r) = call (delete_key ops clock request.key) s in
      (s', returned (λ u. delete_result request.key) r)

  -- executeOperation
  unfoldable pub execute_operation :
      (ℕ → ℤ) → OpRequest → Server W → Server W × Result ApiError OpResult
  execute_operation clock request s =
      if request.op == codes "PUT"
      then execute_put clock request s
      else if request.op == codes "GET"
      then execute_get clock request s
      else if request.op == codes "DELETE"
      then execute_delete clock request s
      else (s, err (unknown_operation request.op))

  abbrev pub add_result :
      OpResult
      → Server W × Result ApiError (List OpResult)
      → Server W × Result ApiError (List OpResult)
  add_result r (s, ok rs) = (s, ok (r ∷ rs))
  add_result r (s, err x) = (s, err x)

  -- The loop of handleTransaction over the operations, up to the first that fails.
  unfoldable pub run_operations :
      (ℕ → ℕ → ℤ) → List OpRequest → Server W → Server W × Result ApiError (List OpResult)
  run_operations times [] s = (s, ok [])
  run_operations times (request ∷ requests) s =
      let (s', result) = execute_operation (times 0) request s in
      let rest = run_operations (λ i. times (i + 1)) requests s' in
      elim result [ err x ↦ (s', err x) | ok r ↦ add_result r rest ]

  -- The end of handleTransaction, once the operations have run. What RollbackTransaction returns is
  -- not looked at.
  unfoldable pub finish_transaction :
      ℤ → Bytes → Bool → Server W × Result ApiError (List OpResult) → Server W × HttpResponse
  finish_transaction now id met (s, err x) =
      ((call (rollback_transaction id) s).0, internal_error x)
  finish_transaction now id met (s, ok rs) =
      let (s', r) = call (commit_transaction now id) s in
      elim r [
        | err x ↦ (s', internal_error (engine_error x))
        | ok u ↦ (s', status_ok (txn_body met rs))
      ]

  -- handleTransaction, from the check of the conditions on.
  unfoldable pub run_transaction :
      (ℕ → ℤ) → (ℕ → ℕ → ℤ) → Bytes → TxnRequest → Server W → Server W × HttpResponse
  run_transaction clock times id txn s =
      let (s', met) = check_conditions (λ i. clock (i + 2)) txn.compare s in
      finish_transaction (clock 1) id met
        (run_operations times (if met then txn.success else txn.failure) s')

  -- handleTransaction; `id` is what generateTxnID makes.
  unfoldable pub handle_transaction :
      (ℕ → ℤ) → (ℕ → ℕ → ℤ) → Bytes → Method → Option TxnRequest → Handler W
  handle_transaction clock times id method_post (some txn) s =
      let (s', r) = call (begin_transaction (clock 0) id) s in
      elim r [
        | err x ↦ (s', internal_error (engine_error x))
        | ok t ↦ run_transaction clock times id txn s'
      ]
  handle_transaction clock times id method_post none s = refuse bad_request s
  handle_transaction clock times id _ body s = refuse method_not_allowed s
