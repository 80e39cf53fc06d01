-- ===== src/Api/Sessions.antt =====
-- The engine's calls that internal/api/server.go makes within a transaction, beside the engine's table
-- of transactions: they neither read nor change it.
use my_etcd.Base.{
  ℕ, ◌+◌, ◌≡◌, refl, ap, ◌∙◌, Bool, true, false, none, some, Option, List, [], ◌∷◌, Bytes, bytes_eq,
  codes, ◌==◌, if◌then◌else◌, Bool-cases, inl, inr,
}
use my_etcd.Base.Words.{ℤ, pos}
use my_etcd.Base.GoMap.{GoMap, lookup}
use my_etcd.Base.Result.{Result, ok, err}
use my_etcd.Types.{Command}
use my_etcd.Storage.Data.{EngineError, engine_closed, key_not_found, KeyValue, Transaction}
use my_etcd.Storage.Engine.{
  WalWrapper, Engine, Exec, put, put_logged, delete_key, delete_logged, log_command, append_command,
  sync_log, get, when_open, put_command, delete_command, next_step,
}
use my_etcd.Api.Requests.{
  Compare, OpRequest, OpResult, ApiError, put_result, get_result, delete_result, unknown_operation,
}
use my_etcd.Api.Server.{Server, call, call_get}
use my_etcd.Api.Transactions.{
  meets, returned, execute_put, execute_get, execute_delete, check_conditions, add_result,
  execute_operation, run_operations,
}

abbrev Txns : Type 0
Txns = GoMap Bytes Transaction

-- The same state with another table of transactions.
abbrev pub with_txns : {W : Type 0} → Txns → Engine W → Engine W
with_txns m e = record e { transactions = m }

abbrev pub at_server : {W : Type 0} → Txns → Server W → Server W
at_server m s = record s { engine = with_txns m s.engine }

-- A call that does not look at the table: it does the same beside any.
abbrev Blind : {W A : Type 0} → Exec W A → Type 0
Blind {W} m = (t : Txns) (e : Engine W) → m (with_txns t e) ≡ (with_txns t (m e).0, (m e).1)

module _ {W : Type 0} (ops : WalWrapper W) where
  log_command-Blind : (cmd : Command) → Blind (log_command ops cmd)
  unfolding log_command append_command sync_log
  log_command-Blind cmd t e = elim (Bool-cases (ops.append cmd e.wal).1) [
    | inl a ↦ rw a refl
    | inr a ↦ rw a refl
  ]

  next_step-Blind :
      (m n : Exec W (Unit {0})) → Blind m → Blind n → Blind (λ e. next_step (m e) (λ u. n))
  next_step-Blind m n h k t e =
      ap (λ (r : Engine W × Result EngineError (Unit {0})). next_step r (λ u. n)) (h t e)
      ∙ after (m e)
    where
      after :
          (r : Engine W × Result EngineError (Unit {0}))
          → next_step (with_txns t r.0, r.1) (λ u. n)
            ≡ (with_txns t (next_step r (λ u. n)).0, (next_step r (λ u. n)).1)
      after (e', ok u) = k t e'
      after (e', err x) = refl

  when_open-Blind : {A : Type 0} (m : Exec W A) → Blind m → Blind (when_open m)
  when_open-Blind {A} m h t e = both e.closed
    where
      both :
          (b : Bool)
          → (if b then (with_txns t e, err engine_closed) else m (with_txns t e)) ≡ (
            with_txns t (if b then (e, err engine_closed) else m e).0,
            (if b then (e, err engine_closed) else m e).1,
          )
      both true = refl
      both false = h t e

  pub put-Blind : (clock : ℕ → ℤ) (key value : Bytes) → Blind (put ops clock key value (pos 0))
  unfolding put put_logged
  put-Blind clock key value = when_open-Blind _ (
      next_step-Blind (log_command ops (put_command (clock 0) key value))
        (put_logged ops clock key value (pos 0)) (log_command-Blind _) (λ t e. refl))

  delete_found : (ℕ → ℤ) → Bytes → Option KeyValue → Exec W (Unit {0})
  delete_found clock key found e = elim found [
    | none ↦ (e, err key_not_found)
    | some kv ↦
        next_step (log_command ops (delete_command (clock 0) key) e)
          (λ u. delete_logged ops clock key kv)
  ]

  delete_found-Blind :
      (clock : ℕ → ℤ) (key : Bytes) (found : Option KeyValue) → Blind (delete_found clock key found)
  unfolding delete_found delete_logged
  delete_found-Blind clock key none = λ t e. refl
  delete_found-Blind clock key (some kv) =
      next_step-Blind (log_command ops (delete_command (clock 0) key))
        (delete_logged ops clock key kv) (log_command-Blind _) (λ t e. refl)

  pub delete_key-Blind : (clock : ℕ → ℤ) (key : Bytes) → Blind (delete_key ops clock key)
  unfolding delete_key delete_found
  delete_key-Blind clock key =
      when_open-Blind _ (λ t e. delete_found-Blind clock key (lookup key e.data_map) t e)

  -- The same of a step of the server.
  abbrev pub Apart : {A : Type 0} → (Server W → Server W × A) → Type 0
  Apart m = (t : Txns) (s : Server W) → m (at_server t s) ≡ (at_server t (m s).0, (m s).1)

  call-Apart :
      {A B : Type 0} (m : Exec W A) (f : Result EngineError A → B)
      → Blind m
      → Apart (λ s. ((call m s).0, f (call m s).1))
  call-Apart {A} {B} m f h t s =
      ap (λ (p : Engine W × Result EngineError A). (record s { engine = p.0 }, f p.1))
        (h t s.engine)

  call_get-Apart :
      {B : Type 0} (now : ℤ) (key : Bytes) (f : Result EngineError KeyValue → B)
      → Apart (λ s. ((call_get ops now key s).0, f (call_get ops now key s).1))
  unfolding get
  call_get-Apart now key f t s = refl

  if-Apart :
      {A : Type 0} (b : Bool) (m n : Server W → Server W × A)
      → Apart m
      → Apart n
      → Apart (λ s. if b then m s else n s)
  if-Apart true m n h k = h
  if-Apart false m n h k = k

  execute_operation-Apart :
      (clock : ℕ → ℤ) (request : OpRequest) → Apart (execute_operation ops clock request)
  unfolding execute_operation
  execute_operation-Apart clock request =
      if-Apart (request.op == codes "PUT") (execute_put ops clock request) others
        (call-Apart (put ops clock request.key request.value (pos 0))
          (returned (λ u. put_result request.key request.value))
          (put-Blind clock request.key request.value))
        (if-Apart (request.op == codes "GET") (execute_get ops clock request) last_ones
          (call_get-Apart (clock 0) request.key (returned get_result))
          (if-Apart (request.op == codes "DELETE") (execute_delete ops clock request) unknown
            (call-Apart (delete_key ops clock request.key)
              (returned (λ u. delete_result request.key)) (delete_key-Blind clock request.key))
            (λ t s. refl)))
    where
      unknown : Server W → Server W × Result ApiError OpResult
      unknown s = (s, err (unknown_operation request.op))

      last_ones : Server W → Server W × Result ApiError OpResult
      last_ones s =
          if request.op == codes "DELETE" then execute_delete ops clock request s else unknown s

      others : Server W → Server W × Result ApiError OpResult
      others s = if request.op == codes "GET" then execute_get ops clock request s else last_ones s

  pub check_conditions-Apart :
      (clock : ℕ → ℤ) (conds : List Compare) → Apart (check_conditions ops clock conds)
  unfolding check_conditions get
  check_conditions-Apart clock [] t s = refl
  check_conditions-Apart clock (cond ∷ conds) t s =
      if-Apart (meets cond (call_get ops (clock 0) cond.key s).1)
        (λ x. check_conditions ops (λ i. clock (i + 1)) conds (call_get ops (clock 0) cond.key x).0)
        (λ x. ((call_get ops (clock 0) cond.key x).0, false))
        (λ t' x.
          check_conditions-Apart (λ i. clock (i + 1)) conds t'
            (call_get ops (clock 0) cond.key x).0)
        (λ t' x. refl) t s

  add_result-Apart :
      (r : OpResult) (p : Server W × Result ApiError (List OpResult)) (t : Txns)
      → add_result ops r (at_server t p.0, p.1)
        ≡ (at_server t (add_result ops r p).0, (add_result ops r p).1)
  add_result-Apart r (s, ok rs) t = refl
  add_result-Apart r (s, err x) t = refl

  -- What the loop does after an operation.
  go_on :
      (Server W → Server W × Result ApiError (List OpResult))
      → Server W × Result ApiError OpResult
      → Server W × Result ApiError (List OpResult)
  go_on rest p = elim p.1 [ err x ↦ (p.0, err x) | ok r ↦ add_result ops r (rest p.0) ]

  go_on-Apart :
      (rest : Server W → Server W × Result ApiError (List OpResult))
      → Apart rest
      → (t : Txns) (p : Server W × Result ApiError OpResult)
      → go_on rest (at_server t p.0, p.1) ≡ (at_server t (go_on rest p).0, (go_on rest p).1)
  unfolding go_on
  go_on-Apart rest h t (s, err x) = refl
  go_on-Apart rest h t (s, ok r) = ap (add_result ops r) (h t s) ∙ add_result-Apart r (rest s) t

  pub run_operations-Apart :
      (times : ℕ → ℕ → ℤ) (requests : List OpRequest) → Apart (run_operations ops times requests)
  unfolding run_operations go_on
  run_operations-Apart times [] t s = refl
  run_operations-Apart times (request ∷ requests) t s =
      let rest = run_operations ops (λ i. times (i + 1)) requests in
      ap (go_on rest) (execute_operation-Apart (times 0) request t s)
      ∙ go_on-Apart rest (run_operations-Apart (λ i. times (i + 1)) requests) t
          (execute_operation ops (times 0) request s)
