-- ===== src/Api/Requests.antt =====
-- The requests and responses of internal/api/server.go, decoded: net/http's routing and the JSON are
-- left out. A body that encoding/json does not decode is `none`.
use my_etcd.Base.{ℕ, Bool, Option, List, Bytes}
use my_etcd.Base.Words.{ℤ}
use my_etcd.Lease.Manager.{LeaseInfo}
use my_etcd.Storage.Data.{EngineError, KeyValue}

pub data Method : Type 0 where
  method_get method_put method_post method_delete method_other : Method

pub record PutRequest : Type 0 where
  pub key : Bytes
  pub value : Bytes
  pub ttl : ℤ

pub record RangeRequest : Type 0 where
  pub key : Bytes
  pub range_end : Bytes
  pub limit : ℤ

pub record WatchRequest : Type 0 where
  pub key : Bytes
  pub prefix : Bool
  pub prev_kv : Bool

-- types.Request: an operation of a batch or of a transaction.
pub record OpRequest : Type 0 where
  pub op : Bytes
  pub key : Bytes
  pub value : Bytes

-- types.Compare; `value` is what fmt prints of the condition's value.
pub record Compare : Type 0 where
  pub key : Bytes
  pub op : Bytes
  pub value : Bytes

-- types.TxnRequest
pub record TxnRequest : Type 0 where
  pub compare : List Compare
  pub success : List OpRequest
  pub failure : List OpRequest

-- A request, by the handler that the mux calls. The bytes are what stands behind the handler's path,
-- and the number the one that fmt.Sscanf reads there.
pub data HttpRequest : Type 0 where
  key_request : Method → Bytes → Option PutRequest → HttpRequest
  keys_request : Method → HttpRequest
  range_request : Method → Option RangeRequest → HttpRequest
  watch_request : Method → Option WatchRequest → HttpRequest
  watch_cancel_request : Method → Bytes → Option ℤ → HttpRequest
  batch_request : Method → Option (List OpRequest) → HttpRequest
  lease_grant_request : Method → Option ℤ → HttpRequest
  lease_revoke_request : Method → Option ℤ → HttpRequest
  lease_keep_alive_request : Method → Option ℤ → HttpRequest
  lease_request : Method → HttpRequest
  lease_by_id_request : Method → Bytes → Option ℤ → HttpRequest
  txn_request : Method → Option TxnRequest → HttpRequest
  health_request : Method → HttpRequest
  status_request : Method → HttpRequest

-- What executeOperation returns.
pub data OpResult : Type 0 where
  put_result : Bytes → Bytes → OpResult
  get_result : KeyValue → OpResult
  delete_result : Bytes → OpResult

-- The errors behind a status of 500.
pub data ApiError : Type 0 where
  engine_error : EngineError → ApiError
  unknown_operation : Bytes → ApiError

-- The data of a response with status 200.
pub data Body : Type 0 where
  message : Body
  value_body : KeyValue → Body
  keys_body : List Bytes → Body
  range_body : List KeyValue → (more : Bool) → (count : ℕ) → Body
  watch_body : Option ℤ → Body
  batch_body : (puts deletes : List Bytes) → Body
  granted_body : (id ttl : ℤ) → Body
  lease_body : LeaseInfo → Body
  leases_body : List LeaseInfo → Body
  txn_body : (succeeded : Bool) → List OpResult → Body
  status_body : (keys_count watch_count : ℕ) → Body

-- A response: 200, 400, 405, 404 or 500.
pub data HttpResponse : Type 0 where
  status_ok : Body → HttpResponse
  bad_request method_not_allowed not_found : HttpResponse
  internal_error : ApiError → HttpResponse
