-- ===== src/Raft/Turns.antt =====
-- What the rounds of run and Propose of internal/raft/raft.go take from the channels.
use my_etcd.Base.{
  ◌+◌, ◌<◌, ◌≡◌, refl, sym, subst, Option, none, some, List, [], ◌∷◌, split_if, split_option, ◌++◌,
  append-nil, ◌∙◌, arith,
}
use my_etcd.Base.Words.{u64_mod}
use my_etcd.Types.{Command, LogEntry, RaftMessage}
use my_etcd.Raft.Election.{handle_request_vote}
use my_etcd.Raft.Replication.{handle_append_entries, handle_install_snapshot, apply_entry, propose}
use my_etcd.Raft.Steps.{ticked, appended, asked, installed, took_entry, proposed, here, next}
use my_etcd.Raft.Runtime.{
  Runtime, handled, Case, on_tick, on_append, on_vote, on_apply, on_install, run_round,
  propose_command,
}
use my_etcd.Raft.Balances.{took-Accounts, unchanged}
use my_etcd.Raft.Accounts.{Accounts}

-- If there is a result, it is accounted for.
abbrev Made : Runtime → Option Runtime → Type 0
Made r o = (r' : Runtime) → o ≡ some r' → Accounts r r' [] [] [] [] 0

some-Made : (r x : Runtime) → Accounts r x [] [] [] [] 0 → Made r (some x)
some-Made r x h r' e =
    let same : x ≡ r' = cc e in subst (λ (k : Runtime). Accounts r k [] [] [] [] 0) same h

none-Made : (r : Runtime) → Made r none
none-Made r r' e = absurd (cc e)

-- The head of the channel is handed over.
taken :
    (ch rest : List RaftMessage) (msg : RaftMessage)
    → ch ≡ msg ∷ rest
    → (msg ∷ []) ++ rest ≡ ch ++ []
taken ch rest msg e = sym (append-nil ch ∙ e)

pub run_round-Made :
    (c : Case) (r : Runtime) → r.node.current_term + 1 < u64_mod → Made r (run_round c r)
unfolding run_round handled
run_round-Made on_tick r room =
    split_if (Made r) r.tick_pending _ _
      (λ y. some-Made r _ (record {
        steps = next here (ticked room refl);
        votes_lem = unchanged r.vote_ch;
        appends_lem = unchanged r.append_ch;
        installs_lem = unchanged r.install_ch;
        answers_lem = refl;
        ticks_lem = rw y (omega arith);
      }))
      (λ n. none-Made r)
run_round-Made on_append r room = on r.append_ch refl
  where
    on :
        (ch : List RaftMessage)
        → r.append_ch ≡ ch
        → Made r (elim ch [
          | [] ↦ none
          | msg ∷ rest ↦
              some (handled (handle_append_entries msg r.node) (record r { append_ch = rest }))
        ])
    on [] e = none-Made r
    on (msg ∷ rest) e = some-Made r _ (record {
      steps = next here (appended msg refl);
      votes_lem = unchanged r.vote_ch;
      appends_lem = taken r.append_ch rest msg e;
      installs_lem = unchanged r.install_ch;
      answers_lem = refl;
      ticks_lem = omega arith;
    })
run_round-Made on_vote r room = on r.vote_ch refl
  where
    on :
        (ch : List RaftMessage)
        → r.vote_ch ≡ ch
        → Made r (elim ch [
          | [] ↦ none
          | msg ∷ rest ↦
              some (handled (handle_request_vote msg r.node) (record r { vote_ch = rest }))
        ])
    on [] e = none-Made r
    on (msg ∷ rest) e = some-Made r _ (record {
      steps = next here (asked msg refl);
      votes_lem = taken r.vote_ch rest msg e;
      appends_lem = unchanged r.append_ch;
      installs_lem = unchanged r.install_ch;
      answers_lem = refl;
      ticks_lem = omega arith;
    })
run_round-Made on_apply r room = on r.apply_ch
  where
    on :
        (ch : List LogEntry)
        → Made r (elim ch [
          | [] ↦ none
          | entry ∷ rest ↦ some (handled (apply_entry entry r.node) (record r { apply_ch = rest }))
        ])
    on [] = none-Made r
    on (entry ∷ rest) = some-Made r _ (
        took-Accounts r _ (took_entry entry refl) (refl, refl, refl, refl) (refl, refl, refl, refl))
run_round-Made (on_install spare restored machine) r room = on r.install_ch refl
  where
    on :
        (ch : List RaftMessage)
        → r.install_ch ≡ ch
        → Made r (elim ch [
          | [] ↦ none
          | msg ∷ rest ↦ elim (handle_install_snapshot spare restored msg r.node) [
            | none ↦ none
            | some n ↦ some (handled n (record r { install_ch = rest; machine = machine }))
          ]
        ])
    on [] e = none-Made r
    on (msg ∷ rest) e =
        split_option (Made r) (handle_install_snapshot spare restored msg r.node) _ _
          (λ n. none-Made r)
          (λ n took. some-Made r _ (record {
            steps = next here (installed spare restored msg took);
            votes_lem = unchanged r.vote_ch;
            appends_lem = unchanged r.append_ch;
            installs_lem = taken r.install_ch rest msg e;
            answers_lem = refl;
            ticks_lem = omega arith;
          }))

pub propose_command-Made : (command : Command) (r : Runtime) → Made r (propose_command command r)
unfolding propose_command handled
propose_command-Made command r =
    split_option (Made r) (propose command r.node) _ _ (λ n. none-Made r)
      (λ n took. some-Made r _ (
        took-Accounts r _ (proposed command took) (refl, refl, refl, refl)
          (refl, refl, refl, refl)))
