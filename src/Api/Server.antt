-- ===== src/Api/Server.antt =====
-- The server of internal/api/server.go: its engine, and the calls that its handlers make of it. A
-- handler runs with no other handler between its calls.
use my_etcd.Base.{none, some, List, [], ◌∷◌, ◌++◌, Bytes}
use my_etcd.Base.Words.{ℤ}
use my_etcd.Base.Result.{Result, ok, err}
use my_etcd.Storage.Data.{EngineError, KeyValue}
use my_etcd.Storage.Engine.{WalWrapper, Engine, Exec, get}
use my_etcd.Api.Requests.{HttpResponse, Body, status_ok, internal_error, engine_error}

-- `to_delete` holds the keys that the goroutines of Get will delete.
pub record Server (W : Type 0) : Type 0 where
  pub engine : Engine W
  pub to_delete : List Bytes

abbrev pub Handler : Type 0 → Type 0
Handler W = Server W → Server W × HttpResponse

module _ {W : Type 0} where
  -- A call of the engine.
  abbrev pub call : {A : Type 0} → Exec W A → Server W → Server W × Result EngineError A
  call m s = let (e, r) = m s.engine in (record s { engine = e }, r)

  -- A call of Get.
  abbrev pub call_get : WalWrapper W → ℤ → Bytes → Server W → Server W × Result EngineError KeyValue
  call_get ops now key s =
      let (r, expired) = get ops now key s.engine in
      (
        record s {
          to_delete = elim expired [ none ↦ s.to_delete | some k ↦ s.to_delete ++ (k ∷ []) ];
        },
        r,
      )

  -- The response to a call: 500 with the error, or 200.
  abbrev pub respond :
      {A : Type 0} → (A → Body) → Server W × Result EngineError A → Server W × HttpResponse
  respond body (s, ok a) = (s, status_ok (body a))
  respond body (s, err x) = (s, internal_error (engine_error x))

  -- writeError
  abbrev pub refuse : HttpResponse → Handler W
  refuse response s = (s, response)
