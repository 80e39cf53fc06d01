-- ===== src/Api/Examples.antt =====
-- The theorems on internal/api/server.go at work, with a list of commands for the log.
use my_etcd.Base.{
  ◌+◌, ◌≡◌, refl, true, false, some, none, List, [], ◌∷◌, ◌++◌, codes, bytes_eq, bytes_beq,
  if◌then◌else◌,
}
use my_etcd.Base.Words.{pos}
use my_etcd.Base.GoMap.{lookup}
use my_etcd.Types.{Command}
use my_etcd.Lease.Manager.{new_manager}
use my_etcd.Watch.Watcher.{new_watcher}
use my_etcd.Storage.Engine.{WalWrapper}
use my_etcd.Api.Requests.{method_put, method_post, key_request, TxnRequest, HttpRequest}
use my_etcd.Api.Server.{Server}
use my_etcd.Api.Handlers.{Times, serve, handle_key, on_key, handle_put}
use my_etcd.Api.Transactions.{check_conditions, run_operations, handle_transaction}
use my_etcd.Api.Answers.{is_rejection}
use my_etcd.Api.Rejections.{rejected_changes_nothing}
use my_etcd.Api.Sequences.{answer, transaction_is_sequence}

abbrev list_log : WalWrapper (List Command)
list_log = record {
  append = λ cmd w. (w ++ (cmd ∷ []), true);
  sync = λ w. (w, true);
  records = λ w. w;
  index = λ w. 0;
  term = λ w. 0;
  truncate = λ i w. (w, true);
  close = λ w. (w, true);
}

abbrev fresh : Server (List Command)
fresh = record {
  engine = record {
    data_map = [];
    transactions = [];
    wal = [];
    watcher = new_watcher;
    lease_manager = new_manager;
    closed = false;
  };
  to_delete = [];
}

abbrev times : Times
times = record {
  whole = λ z. z;
  clock = λ i. pos (i + 1);
  later = λ i j. pos (i + j);
  txn_id = codes "t";
}

-- A PUT of one key whose body names another.
abbrev mismatch : HttpRequest
mismatch =
    key_request method_put (codes "k")
      (some (record { key = codes "j"; value = codes "v"; ttl = pos 0 }))

mismatch_rejected : is_rejection (serve list_log times mismatch fresh).1 ≡ true
unfolding serve handle_key on_key handle_put bytes_beq
mismatch_rejected = refl

rejected_changes_nothing_example : (serve list_log times mismatch fresh).0 ≡ fresh
rejected_changes_nothing_example =
    rejected_changes_nothing list_log times mismatch fresh mismatch_rejected

-- A put and then an operation that fails.
abbrev failing : TxnRequest
failing = record {
  compare = record { key = codes "k"; op = codes "!="; value = codes "v" } ∷ [];
  success =
      record { op = codes "PUT"; key = codes "k"; value = codes "v" }
      ∷ record { op = codes "GET"; key = codes "j"; value = [] }
      ∷ [];
  failure = [];
}

no_such_txn : lookup (codes "t") fresh.engine.transactions ≡ none
unfolding lookup
no_such_txn = refl

transaction_is_sequence_example :
    handle_transaction list_log times.clock times.later (codes "t") method_post (some failing) fresh
    ≡ (let (s', met) = check_conditions list_log (λ i. times.clock (i + 2)) failing.compare fresh in
        let (s'', result) =
          run_operations list_log times.later
            (if met then failing.success else failing.failure)
            s' in
        (s'', answer met result))
transaction_is_sequence_example =
    transaction_is_sequence list_log times.clock times.later (codes "t") failing fresh refl
      no_such_txn
