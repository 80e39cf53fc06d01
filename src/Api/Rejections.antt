-- ===== src/Api/Rejections.antt =====
-- Requests that the handlers of internal/api/server.go turn down.
use my_etcd.Base.{
  ℕ, ◌≡◌, refl, Bool, true, none, some, Option, List, [], Bytes, bytes_eq, ◌==◌, if◌then◌else◌,
  length, nat_eq, split_if, split_option,
}
use my_etcd.Base.Words.{ℤ, pos, ltb_ℤ}
use my_etcd.Base.GoMap.{GoMap}
use my_etcd.Base.Result.{Result, ok, err}
use my_etcd.Storage.Data.{EngineError, lease_error, Transaction}
use my_etcd.Storage.Engine.{WalWrapper, is_nil}
use my_etcd.Storage.Queries.{batch_put, batch_delete, begin_transaction, commit_transaction}
use my_etcd.Lease.Manager
use my_etcd.Api.Requests
use my_etcd.Api.Requests.{
  Method, method_get, method_put, method_post, method_delete, method_other, PutRequest,
  RangeRequest, WatchRequest, TxnRequest, OpRequest, HttpRequest, HttpResponse, status_ok,
  bad_request, method_not_allowed, not_found, internal_error, ApiError, Body, OpResult,
}
use my_etcd.Api.Server.{Server, call, respond}
use my_etcd.Api.Transactions.{handle_transaction, finish_transaction, run_transaction}
use my_etcd.Api.Handlers
use my_etcd.Api.Answers.{is_rejection, Kept, respond-Kept, on_key-Kept}

module _ {W : Type 0} (ops : WalWrapper W) (t : Handlers.Times) where
  handle_keys-Kept : (method : Method) (s : Server W) → Kept s (Handlers.handle_keys ops t method s)
  unfolding Handlers.handle_keys
  handle_keys-Kept method_get s = λ k. absurd (cc k)
  handle_keys-Kept method_put s = λ k. refl
  handle_keys-Kept method_post s = λ k. refl
  handle_keys-Kept method_delete s = λ k. refl
  handle_keys-Kept method_other s = λ k. refl

  handle_range-Kept :
      (method : Method) (body : Option RangeRequest) (s : Server W)
      → Kept s (Handlers.handle_range ops t method body s)
  unfolding Handlers.handle_range
  handle_range-Kept method_get body s = λ k. refl
  handle_range-Kept method_put body s = λ k. refl
  handle_range-Kept method_post none s = λ k. refl
  handle_range-Kept method_post (some req) s = respond-Kept ops t _ s _
  handle_range-Kept method_delete body s = λ k. refl
  handle_range-Kept method_other body s = λ k. refl

  handle_watch-Kept :
      (method : Method) (body : Option WatchRequest) (s : Server W)
      → Kept s (Handlers.handle_watch ops t method body s)
  unfolding Handlers.handle_watch
  handle_watch-Kept method_get body s = λ k. refl
  handle_watch-Kept method_put body s = λ k. refl
  handle_watch-Kept method_post none s = λ k. refl
  handle_watch-Kept method_post (some req) s = respond-Kept ops t _ s _
  handle_watch-Kept method_delete body s = λ k. refl
  handle_watch-Kept method_other body s = λ k. refl

  handle_watch_cancel-Kept :
      (method : Method) (text : Bytes) (number : Option ℤ) (s : Server W)
      → Kept s (Handlers.handle_watch_cancel ops t method text number s)
  unfolding Handlers.handle_watch_cancel
  handle_watch_cancel-Kept method_get text number s = λ k. refl
  handle_watch_cancel-Kept method_put text number s = λ k. refl
  handle_watch_cancel-Kept method_post text number s = λ k. refl
  handle_watch_cancel-Kept method_delete text none s =
      split_if (Kept s) (is_nil text) _ _ (λ y k. refl) (λ n k. refl)
  handle_watch_cancel-Kept method_delete text (some id) s =
      split_if (Kept s) (is_nil text) _ _ (λ y k. refl) (λ n. respond-Kept ops t _ s _)
  handle_watch_cancel-Kept method_other text number s = λ k. refl

  handle_lease_grant-Kept :
      (method : Method) (body : Option ℤ) (s : Server W)
      → Kept s (Handlers.handle_lease_grant ops t method body s)
  unfolding Handlers.handle_lease_grant
  handle_lease_grant-Kept method_get body s = λ k. refl
  handle_lease_grant-Kept method_put body s = λ k. refl
  handle_lease_grant-Kept method_post none s = λ k. refl
  handle_lease_grant-Kept method_post (some n) s =
      split_if (Kept s) (ltb_ℤ (pos 0) n) _ _ (λ y. respond-Kept ops t _ s _) (λ m k. refl)
  handle_lease_grant-Kept method_delete body s = λ k. refl
  handle_lease_grant-Kept method_other body s = λ k. refl

  handle_lease_revoke-Kept :
      (method : Method) (body : Option ℤ) (s : Server W)
      → Kept s (Handlers.handle_lease_revoke ops t method body s)
  unfolding Handlers.handle_lease_revoke
  handle_lease_revoke-Kept method_get body s = λ k. refl
  handle_lease_revoke-Kept method_put body s = λ k. refl
  handle_lease_revoke-Kept method_post none s = λ k. refl
  handle_lease_revoke-Kept method_post (some n) s =
      split_if (Kept s) (ltb_ℤ (pos 0) n) _ _ (λ y. respond-Kept ops t _ s _) (λ m k. refl)
  handle_lease_revoke-Kept method_delete body s = λ k. refl
  handle_lease_revoke-Kept method_other body s = λ k. refl

  handle_lease_keep_alive-Kept :
      (method : Method) (body : Option ℤ) (s : Server W)
      → Kept s (Handlers.handle_lease_keep_alive ops t method body s)
  unfolding Handlers.handle_lease_keep_alive
  handle_lease_keep_alive-Kept method_get body s = λ k. refl
  handle_lease_keep_alive-Kept method_put body s = λ k. refl
  handle_lease_keep_alive-Kept method_post none s = λ k. refl
  handle_lease_keep_alive-Kept method_post (some n) s =
      split_if (Kept s) (ltb_ℤ (pos 0) n) _ _ (λ y. respond-Kept ops t _ s _) (λ m k. refl)
  handle_lease_keep_alive-Kept method_delete body s = λ k. refl
  handle_lease_keep_alive-Kept method_other body s = λ k. refl

  run_batch-Kept :
      (puts : GoMap Bytes Bytes) (deletes : List Bytes) (s : Server W)
      → Kept s (Handlers.run_batch ops t puts deletes s)
  unfolding Handlers.run_batch
  run_batch-Kept puts deletes s =
      failing
        (if length puts == 0 then (s, ok tt) else call (batch_put ops (t.later 0) puts (pos 0)) s)
    where
      second : Server W → Server W × Result EngineError (Unit {0})
      second s' =
          if length deletes == 0
          then (s', ok tt)
          else call (batch_delete ops (t.later 1) deletes) s'

      failing :
          (p : Server W × Result EngineError (Unit {0}))
          → Kept s (elim p.1 [
            | err x ↦ (p.0, internal_error (Requests.engine_error x))
            | ok u ↦ respond (λ v. Requests.batch_body (Handlers.keys_of puts) deletes) (second p.0)
          ])
      failing (s', ok u) k = respond-Kept ops t _ s (second s') k
      failing (s', err x) k = absurd (cc k)

  handle_batch-Kept :
      (method : Method) (body : Option (List OpRequest)) (s : Server W)
      → Kept s (Handlers.handle_batch ops t method body s)
  unfolding Handlers.handle_batch
  handle_batch-Kept method_get body s = λ k. refl
  handle_batch-Kept method_put body s = λ k. refl
  handle_batch-Kept method_post none s = λ k. refl
  handle_batch-Kept method_post (some os) s =
      split_option (Kept s) (Handlers.split_batch os [] []) _ _ (λ n k. refl)
        (λ p there. run_batch-Kept p.0 p.1 s)
  handle_batch-Kept method_delete body s = λ k. refl
  handle_batch-Kept method_other body s = λ k. refl

  handle_lease-Kept :
      (method : Method) (s : Server W) → Kept s (Handlers.handle_lease ops t method s)
  unfolding Handlers.handle_lease
  handle_lease-Kept method_get s =
      failing (Manager.list_leases t.whole (t.clock 0) s.engine.lease_manager)
    where
      failing :
          (r : Result Manager.LeaseError (List Manager.LeaseInfo))
          → Kept s (elim r [
            | ok infos ↦ (s, status_ok (Requests.leases_body infos))
            | err x ↦ (s, internal_error (Requests.engine_error (lease_error x)))
          ])
      failing (ok infos) k = refl
      failing (err x) k = refl
  handle_lease-Kept method_put s = λ k. refl
  handle_lease-Kept method_post s = λ k. refl
  handle_lease-Kept method_delete s = λ k. refl
  handle_lease-Kept method_other s = λ k. refl

  handle_lease_by_id-Kept :
      (method : Method) (text : Bytes) (number : Option ℤ) (s : Server W)
      → Kept s (Handlers.handle_lease_by_id ops t method text number s)
  unfolding Handlers.handle_lease_by_id
  handle_lease_by_id-Kept method_get text none s =
      split_if (Kept s) (is_nil text) _ _ (λ y k. refl) (λ n k. refl)
  handle_lease_by_id-Kept method_get text (some id) s =
      split_if (Kept s) (is_nil text) _ _ (λ y k. refl)
        (λ n. failing (Manager.get_lease t.whole (t.clock 0) id s.engine.lease_manager))
    where
      failing :
          (r : Result Manager.LeaseError Manager.LeaseInfo)
          → Kept s (elim r [
            | ok info ↦ (s, status_ok (Requests.lease_body info))
            | err x ↦ (s, not_found)
          ])
      failing (ok info) k = refl
      failing (err x) k = refl
  handle_lease_by_id-Kept method_put text number s = λ k. refl
  handle_lease_by_id-Kept method_post text number s = λ k. refl
  handle_lease_by_id-Kept method_delete text number s = λ k. refl
  handle_lease_by_id-Kept method_other text number s = λ k. refl

  handle_health-Kept :
      (method : Method) (s : Server W) → Kept s (Handlers.handle_health ops t method s)
  unfolding Handlers.handle_health
  handle_health-Kept method_get s = λ k. refl
  handle_health-Kept method_put s = λ k. refl
  handle_health-Kept method_post s = λ k. refl
  handle_health-Kept method_delete s = λ k. refl
  handle_health-Kept method_other s = λ k. refl

  handle_status-Kept :
      (method : Method) (s : Server W) → Kept s (Handlers.handle_status ops t method s)
  unfolding Handlers.handle_status
  handle_status-Kept method_get s = λ k. refl
  handle_status-Kept method_put s = λ k. refl
  handle_status-Kept method_post s = λ k. refl
  handle_status-Kept method_delete s = λ k. refl
  handle_status-Kept method_other s = λ k. refl

  finish_transaction-Kept :
      (now : ℤ) (id : Bytes) (met : Bool) (s : Server W)
      (p : Server W × Result ApiError (List OpResult))
      → Kept s (finish_transaction ops now id met p)
  unfolding finish_transaction
  finish_transaction-Kept now id met s (s', err x) = λ k. absurd (cc k)
  finish_transaction-Kept now id met s (s', ok rs) = failing (call (commit_transaction now id) s')
    where
      failing :
          (p : Server W × Result EngineError (Unit {0}))
          → Kept s (elim p.1 [
            | err x ↦ (p.0, internal_error (Requests.engine_error x))
            | ok u ↦ (p.0, status_ok (Requests.txn_body met rs))
          ])
      failing (s'', ok u) k = absurd (cc k)
      failing (s'', err x) k = absurd (cc k)

  run_transaction-Kept :
      (clock : ℕ → ℤ) (times : ℕ → ℕ → ℤ) (id : Bytes) (txn : TxnRequest) (s s' : Server W)
      → Kept s (run_transaction ops clock times id txn s')
  unfolding run_transaction
  run_transaction-Kept clock times id txn s s' = finish_transaction-Kept _ id _ s _

  handle_transaction-Kept :
      (method : Method) (body : Option TxnRequest) (s : Server W)
      → Kept s (handle_transaction ops t.clock t.later t.txn_id method body s)
  unfolding handle_transaction
  handle_transaction-Kept method_get body s = λ k. refl
  handle_transaction-Kept method_put body s = λ k. refl
  handle_transaction-Kept method_post none s = λ k. refl
  handle_transaction-Kept method_post (some txn) s =
      failing (call (begin_transaction (t.clock 0) t.txn_id) s)
    where
      failing :
          (p : Server W × Result EngineError Transaction)
          → Kept s (elim p.1 [
            | err x ↦ (p.0, internal_error (Requests.engine_error x))
            | ok made ↦ run_transaction ops t.clock t.later t.txn_id txn p.0
          ])
      failing (s', ok made) k = run_transaction-Kept t.clock t.later t.txn_id txn s s' k
      failing (s', err x) k = absurd (cc k)
  handle_transaction-Kept method_delete body s = λ k. refl
  handle_transaction-Kept method_other body s = λ k. refl

  -- Any request that a handler answers with the status 400 or 405, for a method that is not allowed, a
  -- body or a number that cannot be read, an empty key, another key in the body, a TTL or an ID that is
  -- not positive, or an unsupported operation in a batch, leaves the whole state of the server as it
  -- was: the data, the log, the leases, the watches and the transactions.
  pub rejected_changes_nothing :
      (request : HttpRequest) (s : Server W)
      → is_rejection (Handlers.serve ops t request s).1 ≡ true
      → (Handlers.serve ops t request s).0 ≡ s
  unfolding Handlers.serve Handlers.handle_key
  rejected_changes_nothing (Requests.key_request method key body) s =
      split_if (Kept s) (is_nil key) _ _ (λ y k. refl) (λ n. on_key-Kept ops t method key body s)
  rejected_changes_nothing (Requests.keys_request method) s = handle_keys-Kept method s
  rejected_changes_nothing (Requests.range_request method body) s = handle_range-Kept method body s
  rejected_changes_nothing (Requests.watch_request method body) s = handle_watch-Kept method body s
  rejected_changes_nothing (Requests.watch_cancel_request method text number) s =
      handle_watch_cancel-Kept method text number s
  rejected_changes_nothing (Requests.batch_request method body) s = handle_batch-Kept method body s
  rejected_changes_nothing (Requests.lease_grant_request method body) s =
      handle_lease_grant-Kept method body s
  rejected_changes_nothing (Requests.lease_revoke_request method body) s =
      handle_lease_revoke-Kept method body s
  rejected_changes_nothing (Requests.lease_keep_alive_request method body) s =
      handle_lease_keep_alive-Kept method body s
  rejected_changes_nothing (Requests.lease_request method) s = handle_lease-Kept method s
  rejected_changes_nothing (Requests.lease_by_id_request method text number) s =
      handle_lease_by_id-Kept method text number s
  rejected_changes_nothing (Requests.txn_request method body) s =
      handle_transaction-Kept method body s
  rejected_changes_nothing (Requests.health_request method) s = handle_health-Kept method s
  rejected_changes_nothing (Requests.status_request method) s = handle_status-Kept method s
