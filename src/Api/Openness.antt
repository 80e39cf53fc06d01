-- ===== src/Api/Openness.antt =====
-- The engine's calls that internal/api/server.go makes within a transaction leave an open engine open.
use my_etcd.Base.{
  ℕ, ◌+◌, ◌≡◌, refl, ◌∙◌, Bool, List, [], ◌∷◌, Bytes, bytes_eq, codes, ◌==◌, split_if, split_option,
}
use my_etcd.Base.Words.{ℤ, pos}
use my_etcd.Base.GoMap.{lookup}
use my_etcd.Base.Result.{Result, ok, err}
use my_etcd.Types.{Command}
use my_etcd.Storage.Data.{EngineError}
use my_etcd.Storage.Engine.{
  WalWrapper, Engine, Exec, put, put_logged, delete_key, delete_logged, log_command, append_command,
  sync_log, put_command, delete_command, next_step,
}
use my_etcd.Api.Requests.{Compare, OpRequest, OpResult, ApiError}
use my_etcd.Api.Server.{Server, call_get}
use my_etcd.Api.Transactions.{
  meets, check_conditions, add_result, execute_operation, run_operations,
}

abbrev SameClosed : {W A : Type 0} → Engine W → Engine W × A → Type 0
SameClosed e r = r.0.closed ≡ e.closed

module _ {W : Type 0} (ops : WalWrapper W) where
  next_step-closed :
      (e : Engine W) (r : Engine W × Result EngineError (Unit {0})) (n : Exec W (Unit {0}))
      → SameClosed e r
      → ((e : Engine W) → SameClosed e (n e))
      → SameClosed e (next_step r (λ u. n))
  next_step-closed e (e', ok u) n h k = k e' ∙ h
  next_step-closed e (e', err x) n h k = h

  log_command-closed : (cmd : Command) (e : Engine W) → SameClosed e (log_command ops cmd e)
  unfolding log_command append_command sync_log
  log_command-closed cmd e =
      next_step-closed e (append_command ops cmd e) (sync_log ops) refl (λ e'. refl)

  put-closed :
      (clock : ℕ → ℤ) (key value : Bytes) (e : Engine W)
      → SameClosed e (put ops clock key value (pos 0) e)
  unfolding put put_logged
  put-closed clock key value e =
      split_if (λ (r : Engine W × Result EngineError (Unit {0})). r.0.closed ≡ e.closed) e.closed _
        _ (λ y. refl)
        (λ n.
          next_step-closed e (log_command ops (put_command (clock 0) key value) e)
            (put_logged ops clock key value (pos 0)) (log_command-closed _ e) (λ e'. refl))

  delete_key-closed :
      (clock : ℕ → ℤ) (key : Bytes) (e : Engine W) → SameClosed e (delete_key ops clock key e)
  unfolding delete_key delete_logged
  delete_key-closed clock key e =
      split_if Kept e.closed _ _ (λ y. refl)
        (λ n.
          split_option Kept (lookup key e.data_map) _ _ (λ m. refl)
            (λ kv there.
              next_step-closed e (log_command ops (delete_command (clock 0) key) e)
                (delete_logged ops clock key kv) (log_command-closed _ e) (λ e'. refl)))
    where
      Kept : Engine W × Result EngineError (Unit {0}) → Type 0
      Kept r = r.0.closed ≡ e.closed

  execute_operation-closed :
      (clock : ℕ → ℤ) (request : OpRequest) (s : Server W)
      → (execute_operation ops clock request s).0.engine.closed ≡ s.engine.closed
  unfolding execute_operation
  execute_operation-closed clock request s =
      split_if Kept (request.op == codes "PUT") _ _
        (λ y. put-closed clock request.key request.value s.engine)
        (λ n.
          split_if Kept (request.op == codes "GET") _ _ (λ y. refl)
            (λ m.
              split_if Kept (request.op == codes "DELETE") _ _
                (λ y. delete_key-closed clock request.key s.engine) (λ k. refl)))
    where
      Kept : Server W × Result ApiError OpResult → Type 0
      Kept r = r.0.engine.closed ≡ s.engine.closed

  pub check_conditions-closed :
      (clock : ℕ → ℤ) (conds : List Compare) (s : Server W)
      → (check_conditions ops clock conds s).0.engine.closed ≡ s.engine.closed
  unfolding check_conditions
  check_conditions-closed clock [] s = refl
  check_conditions-closed clock (cond ∷ conds) s =
      split_if (λ (r : Server W × Bool). r.0.engine.closed ≡ s.engine.closed)
        (meets cond (call_get ops (clock 0) cond.key s).1) _ _
        (λ y.
          check_conditions-closed (λ i. clock (i + 1)) conds (call_get ops (clock 0) cond.key s).0)
        (λ n. refl)

  pub run_operations-closed :
      (times : ℕ → ℕ → ℤ) (requests : List OpRequest) (s : Server W)
      → (run_operations ops times requests s).0.engine.closed ≡ s.engine.closed
  unfolding run_operations
  run_operations-closed times [] s = refl
  run_operations-closed times (request ∷ requests) s =
      after (execute_operation ops (times 0) request s)
        (run_operations ops (λ i. times (i + 1)) requests)
        (execute_operation-closed (times 0) request s)
        (λ s'. run_operations-closed (λ i. times (i + 1)) requests s')
    where
      kept_by :
          (r : OpResult) (p : Server W × Result ApiError (List OpResult))
          → (add_result ops r p).0.engine.closed ≡ p.0.engine.closed
      kept_by r (s, ok rs) = refl
      kept_by r (s, err x) = refl

      after :
          (p : Server W × Result ApiError OpResult)
          → (rest : Server W → Server W × Result ApiError (List OpResult))
          → p.0.engine.closed ≡ s.engine.closed
          → ((s' : Server W) → (rest s').0.engine.closed ≡ s'.engine.closed)
          → ◌≡◌ {A = Bool}
              (elim p.1 as (λ _. Server W × Result ApiError (List OpResult)) [
                | err x ↦ (p.0, err x)
                | ok r ↦ add_result ops r (rest p.0)
              ]).0.engine.closed
              s.engine.closed
      after (s', err x) rest h k = h
      after (s', ok r) rest h k = kept_by r (rest s') ∙ k s' ∙ h
