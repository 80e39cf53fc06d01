-- ===== src/Api/Answers.antt =====
-- Answers of internal/api/server.go that turn a request down, and the handlers of a single key.
use my_etcd.Base.{
  ◌≡◌, refl, Bool, true, false, ◌&&◌, not, none, some, Option, Bytes, bytes_eq, ◌==◌, if◌then◌else◌,
  nat_eq, split_if,
}
use my_etcd.Base.Result.{Result, ok, err}
use my_etcd.Storage.Data.{
  EngineError, engine_closed, key_not_found, key_expired, txn_not_found, cas_failed, invalid_txn,
  append_failed, sync_failed, read_failed, ttl_not_positive, watch_not_found, unknown_command,
  lease_error, KeyValue,
}
use my_etcd.Storage.Engine.{WalWrapper, is_nil, delete_key}
use my_etcd.Api.Requests
use my_etcd.Api.Requests.{
  Method, method_get, method_put, method_post, method_delete, method_other, PutRequest,
  RangeRequest, WatchRequest, TxnRequest, OpRequest, HttpRequest, HttpResponse, status_ok,
  bad_request, method_not_allowed, not_found, internal_error, ApiError, Body, OpResult,
}
use my_etcd.Api.Server.{Server, call, call_get, respond}
use my_etcd.Api.Handlers

-- The responses 400 and 405.
abbrev pub is_rejection : HttpResponse → Bool
is_rejection bad_request = true
is_rejection method_not_allowed = true
is_rejection _ = false

-- Rejected, and then the server is as it was.
abbrev pub Kept : {W : Type 0} → Server W → Server W × HttpResponse → Type 0
Kept s r = is_rejection r.1 ≡ true → r.0 ≡ s

get_failure-answers : (x : EngineError) → is_rejection (Handlers.get_failure x) ≡ false
get_failure-answers engine_closed = refl
get_failure-answers key_not_found = refl
get_failure-answers key_expired = refl
get_failure-answers txn_not_found = refl
get_failure-answers cas_failed = refl
get_failure-answers invalid_txn = refl
get_failure-answers append_failed = refl
get_failure-answers sync_failed = refl
get_failure-answers read_failed = refl
get_failure-answers ttl_not_positive = refl
get_failure-answers watch_not_found = refl
get_failure-answers (unknown_command n) = refl
get_failure-answers (lease_error y) = refl

delete_failure-answers : (x : EngineError) → is_rejection (Handlers.delete_failure x) ≡ false
delete_failure-answers engine_closed = refl
delete_failure-answers key_not_found = refl
delete_failure-answers key_expired = refl
delete_failure-answers txn_not_found = refl
delete_failure-answers cas_failed = refl
delete_failure-answers invalid_txn = refl
delete_failure-answers append_failed = refl
delete_failure-answers sync_failed = refl
delete_failure-answers read_failed = refl
delete_failure-answers ttl_not_positive = refl
delete_failure-answers watch_not_found = refl
delete_failure-answers (unknown_command n) = refl
delete_failure-answers (lease_error y) = refl

module _ {W : Type 0} (ops : WalWrapper W) (t : Handlers.Times) where
  pub respond-Kept :
      {A : Type 0} (body : A → Body) (s : Server W) (r : Server W × Result EngineError A)
      → Kept s (respond body r)
  respond-Kept body s (s', ok a) k = absurd (cc k)
  respond-Kept body s (s', err x) k = absurd (cc k)

  handle_get-Kept : (key : Bytes) (s : Server W) → Kept s (Handlers.handle_get ops t key s)
  unfolding Handlers.handle_get
  handle_get-Kept key s = failing (call_get ops (t.clock 0) key s)
    where
      failing :
          (p : Server W × Result EngineError KeyValue)
          → Kept s (elim p.1 [
            | ok kv ↦ (p.0, status_ok (Requests.value_body kv))
            | err x ↦ (p.0, Handlers.get_failure x)
          ])
      failing (s', ok kv) k = absurd (cc k)
      failing (s', err x) k = absurd (cc (k, get_failure-answers x))

  handle_delete-Kept : (key : Bytes) (s : Server W) → Kept s (Handlers.handle_delete ops t key s)
  unfolding Handlers.handle_delete
  handle_delete-Kept key s = failing (call (delete_key ops t.clock key) s)
    where
      failing :
          (p : Server W × Result EngineError (Unit {0}))
          → Kept s (elim p.1 [
            | ok u ↦ (p.0, status_ok Requests.message)
            | err x ↦ (p.0, Handlers.delete_failure x)
          ])
      failing (s', ok u) k = absurd (cc k)
      failing (s', err x) k = absurd (cc (k, delete_failure-answers x))

  handle_put-Kept :
      (key : Bytes) (body : Option PutRequest) (s : Server W)
      → Kept s (Handlers.handle_put ops t key body s)
  unfolding Handlers.handle_put
  handle_put-Kept key none s = λ k. refl
  handle_put-Kept key (some req) s =
      split_if (Kept s) (not (is_nil req.key) && not (req.key == key)) _ _ (λ y k. refl)
        (λ n.
          split_if (Kept s) (is_nil (if is_nil key then req.key else key)) _ _ (λ y k. refl)
            (λ m. respond-Kept _ s _))

  pub on_key-Kept :
      (method : Method) (key : Bytes) (body : Option PutRequest) (s : Server W)
      → Kept s (Handlers.on_key ops t method key body s)
  unfolding Handlers.on_key
  on_key-Kept method_get key body s = handle_get-Kept key s
  on_key-Kept method_put key body s = handle_put-Kept key body s
  on_key-Kept method_post key body s = λ k. refl
  on_key-Kept method_delete key body s = handle_delete-Kept key s
  on_key-Kept method_other key body s = λ k. refl
