-- ===== src/Api/Handlers.antt =====
-- The other handlers of internal/api/server.go, and the mux. Metrics and logs are left out, and so is
-- the stream of events that handleWatch writes after its first one.
use my_etcd.Base.{
  ℕ, ◌&&◌, not, none, some, Option, List, [], ◌∷◌, ◌++◌, Bytes, bytes_eq, codes, ◌==◌,
  if◌then◌else◌, length, nat_eq,
}
use my_etcd.Base.Words.{ℤ, pos, ltb_ℤ}
use my_etcd.Base.GoMap.{GoMap, insert}
use my_etcd.Base.Result.{ok, err}
use my_etcd.Lease.Manager.{LeaseManager, LeaseError}
use my_etcd.Lease.Manager
use my_etcd.Watch.Watcher.{get_watch_count}
use my_etcd.Storage.Data.{EngineError, key_not_found, key_expired, lease_error}
use my_etcd.Storage.Engine.{WalWrapper, when_open, put, delete_key, is_nil}
use my_etcd.Storage.Queries.{
  list_keys, size, range, watch, cancel_watch, batch_put, batch_delete, grant_lease, revoke_lease,
  keep_alive_lease,
}
use my_etcd.Api.Requests
use my_etcd.Api.Requests.{
  Method, method_get, method_put, method_post, method_delete, PutRequest, RangeRequest,
  WatchRequest, OpRequest, HttpRequest, HttpResponse, status_ok, bad_request, method_not_allowed,
  not_found, internal_error, ApiError, engine_error, Body, message, value_body, keys_body,
  range_body, watch_body, batch_body, granted_body, lease_body, leases_body, status_body,
}
use my_etcd.Api.Server.{Handler, call, call_get, respond, refuse}
use my_etcd.Api.Transactions.{handle_transaction}

-- The times that a handler reads: those of its calls of the engine, by the order of the calls, and
-- the ID that a transaction gets of the clock.
pub record Times : Type 0 where
  pub whole : ℤ → ℤ
  pub clock : ℕ → ℤ
  pub later : ℕ → ℕ → ℤ
  pub txn_id : Bytes

-- The errors for which handleGet and handleDelete answer 404.
abbrev pub get_failure : EngineError → HttpResponse
get_failure key_not_found = not_found
get_failure key_expired = not_found
get_failure x = internal_error (engine_error x)

abbrev pub delete_failure : EngineError → HttpResponse
delete_failure key_not_found = not_found
delete_failure x = internal_error (engine_error x)

-- The split of handleBatch: the puts as a map, the deletes as a list, or an unsupported operation.
unfoldable pub split_batch :
    List OpRequest → GoMap Bytes Bytes → List Bytes → Option (GoMap Bytes Bytes × List Bytes)
split_batch [] puts deletes = some (puts, deletes)
split_batch (o ∷ os) puts deletes =
    let with_put = split_batch os (insert o.key o.value puts) deletes in
    let with_delete = split_batch os puts (deletes ++ (o.key ∷ [])) in
    if o.op == codes "PUT" then with_put else if o.op == codes "DELETE" then with_delete else none

abbrev pub keys_of : GoMap Bytes Bytes → List Bytes
keys_of [] = []
keys_of ((k, v) ∷ rest) = k ∷ keys_of rest

module _ {W : Type 0} (ops : WalWrapper W) (t : Times) where
  -- handleGet
  unfoldable pub handle_get : Bytes → Handler W
  handle_get key s =
      let (s', r) = call_get ops (t.clock 0) key s in
      elim r [ ok kv ↦ (s', status_ok (value_body kv)) | err x ↦ (s', get_failure x) ]

  -- handlePut; handleKey has refused an empty key.
  unfoldable pub handle_put : Bytes → Option PutRequest → Handler W
  handle_put key none s = refuse bad_request s
  handle_put key (some req) s =
      if not (is_nil req.key) && not (req.key == key)
      then refuse bad_request s
      else (let stored_at = if is_nil key then req.key else key in
          if is_nil stored_at
          then refuse bad_request s
          else respond (λ u. message) (call (put ops t.clock stored_at req.value req.ttl) s))

  -- handleDelete
  unfoldable pub handle_delete : Bytes → Handler W
  handle_delete key s =
      let (s', r) = call (delete_key ops t.clock key) s in
      elim r [ ok u ↦ (s', status_ok message) | err x ↦ (s', delete_failure x) ]

  -- The switch of handleKey.
  unfoldable pub on_key : Method → Bytes → Option PutRequest → Handler W
  on_key method_get key body s = handle_get key s
  on_key method_put key body s = handle_put key body s
  on_key method_delete key body s = handle_delete key s
  on_key _ key body s = refuse method_not_allowed s

  -- handleKey
  unfoldable pub handle_key : Method → Bytes → Option PutRequest → Handler W
  handle_key method key body s =
      if is_nil key then refuse bad_request s else on_key method key body s

  -- handleKeys
  unfoldable pub handle_keys : Method → Handler W
  handle_keys method_get s = (s, status_ok (keys_body (list_keys (t.clock 0) s.engine)))
  handle_keys _ s = refuse method_not_allowed s

  -- handleRange
  unfoldable pub handle_range : Method → Option RangeRequest → Handler W
  handle_range method_post none s = refuse bad_request s
  handle_range method_post (some req) s =
      respond
        (λ r. range_body r.0 (ltb_ℤ (pos 0) req.limit && ltb_ℤ (pos (length r.0)) (pos r.1)) r.1)
        (call
          (when_open λ e. (e, ok (range (t.clock 0) req.key req.range_end req.limit e.data_map))) s)
  handle_range _ body s = refuse method_not_allowed s

  -- handleWatch, up to its first event.
  unfoldable pub handle_watch : Method → Option WatchRequest → Handler W
  handle_watch method_post none s = refuse bad_request s
  handle_watch method_post (some req) s =
      respond watch_body (call (watch (t.clock 0) req.key req.prefix req.prev_kv) s)
  handle_watch _ body s = refuse method_not_allowed s

  -- handleWatchCancel
  unfoldable pub handle_watch_cancel : Method → Bytes → Option ℤ → Handler W
  handle_watch_cancel method_delete text number s =
      if is_nil text then refuse bad_request s else elim number [
        | none ↦ refuse bad_request s
        | some id ↦ respond (λ u. message) (call (cancel_watch id) s)
      ]
  handle_watch_cancel _ text number s = refuse method_not_allowed s

  -- The two calls of handleBatch, each where there is something to do, and its answer.
  unfoldable pub run_batch : GoMap Bytes Bytes → List Bytes → Handler W
  run_batch puts deletes s =
      let first =
        if length puts == 0 then (s, ok tt) else call (batch_put ops (t.later 0) puts (pos 0)) s in
      elim first.1 [
        | err x ↦ (first.0, internal_error (engine_error x))
        | ok u ↦
            respond (λ u. batch_body (keys_of puts) deletes)
              (if length deletes == 0
                then (first.0, ok tt)
                else call (batch_delete ops (t.later 1) deletes) first.0)
      ]

  -- handleBatch
  unfoldable pub handle_batch : Method → Option (List OpRequest) → Handler W
  handle_batch method_post none s = refuse bad_request s
  handle_batch method_post (some os) s = elim (split_batch os [] []) [
    | none ↦ refuse bad_request s
    | some (puts, deletes) ↦ run_batch puts deletes s
  ]
  handle_batch _ body s = refuse method_not_allowed s

  -- handleLeaseGrant
  unfoldable pub handle_lease_grant : Method → Option ℤ → Handler W
  handle_lease_grant method_post none s = refuse bad_request s
  handle_lease_grant method_post (some ttl) s =
      if ltb_ℤ (pos 0) ttl
      then respond (λ id. granted_body id ttl) (call (grant_lease (t.clock 0) ttl) s)
      else refuse bad_request s
  handle_lease_grant _ body s = refuse method_not_allowed s

  -- handleLeaseRevoke
  unfoldable pub handle_lease_revoke : Method → Option ℤ → Handler W
  handle_lease_revoke method_post none s = refuse bad_request s
  handle_lease_revoke method_post (some id) s =
      if ltb_ℤ (pos 0) id
      then respond (λ u. message) (call (revoke_lease t.whole t.clock id) s)
      else refuse bad_request s
  handle_lease_revoke _ body s = refuse method_not_allowed s

  -- handleLeaseKeepAlive
  unfoldable pub handle_lease_keep_alive : Method → Option ℤ → Handler W
  handle_lease_keep_alive method_post none s = refuse bad_request s
  handle_lease_keep_alive method_post (some id) s =
      if ltb_ℤ (pos 0) id
      then respond (λ ttl. granted_body id ttl) (call (keep_alive_lease (t.clock 0) id) s)
      else refuse bad_request s
  handle_lease_keep_alive _ body s = refuse method_not_allowed s

  -- handleLease
  unfoldable pub handle_lease : Method → Handler W
  handle_lease method_get s =
      elim (Manager.list_leases t.whole (t.clock 0) s.engine.lease_manager) [
        | ok infos ↦ (s, status_ok (leases_body infos))
        | err x ↦ (s, internal_error (engine_error (lease_error x)))
      ]
  handle_lease _ s = refuse method_not_allowed s

  -- handleLeaseByID
  unfoldable pub handle_lease_by_id : Method → Bytes → Option ℤ → Handler W
  handle_lease_by_id method_get text number s =
      if is_nil text then refuse bad_request s else elim number [
        | none ↦ refuse bad_request s
        | some id ↦ elim (Manager.get_lease t.whole (t.clock 0) id s.engine.lease_manager) [
          | ok info ↦ (s, status_ok (lease_body info))
          | err x ↦ (s, not_found)
        ]
      ]
  handle_lease_by_id _ text number s = refuse method_not_allowed s

  -- handleHealth
  unfoldable pub handle_health : Method → Handler W
  handle_health method_get s = (s, status_ok message)
  handle_health _ s = refuse method_not_allowed s

  -- handleStatus
  unfoldable pub handle_status : Method → Handler W
  handle_status method_get s = (
    s,
    status_ok (
        status_body (size (t.clock 0) s.engine)
          (if s.engine.closed then 0 else get_watch_count s.engine.watcher)),
  )
  handle_status _ s = refuse method_not_allowed s

  -- The mux of NewServer: the handler of each path. handleLeaseList calls handleLease.
  unfoldable pub serve : HttpRequest → Handler W
  serve (Requests.key_request method key body) = handle_key method key body
  serve (Requests.keys_request method) = handle_keys method
  serve (Requests.range_request method body) = handle_range method body
  serve (Requests.watch_request method body) = handle_watch method body
  serve (Requests.watch_cancel_request method text number) = handle_watch_cancel method text number
  serve (Requests.batch_request method body) = handle_batch method body
  serve (Requests.lease_grant_request method body) = handle_lease_grant method body
  serve (Requests.lease_revoke_request method body) = handle_lease_revoke method body
  serve (Requests.lease_keep_alive_request method body) = handle_lease_keep_alive method body
  serve (Requests.lease_request method) = handle_lease method
  serve (Requests.lease_by_id_request method text number) = handle_lease_by_id method text number
  serve (Requests.txn_request method body) =
      handle_transaction ops t.clock t.later t.txn_id method body
  serve (Requests.health_request method) = handle_health method
  serve (Requests.status_request method) = handle_status method
