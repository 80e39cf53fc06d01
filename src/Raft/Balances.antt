-- ===== src/Raft/Balances.antt =====
-- The accounts of a Raft node's channels in internal/raft/raft.go, one after the other.
use my_etcd.Base.{
  ℕ, ◌+◌, ◌≡◌, refl, sym, ap, ◌∙◌, true, List, [], ◌++◌, length, ltb, split_if, append-nil,
  append_assoc, arith,
}
use my_etcd.Types.{RaftMessage}
use my_etcd.Raft.Node.{Node}
use my_etcd.Raft.Steps.{Step, Reach, here, next}
use my_etcd.Raft.Runtime.{Runtime, offer}
use my_etcd.Raft.Accounts.{
  asked_at, appended_at, installed_at, answered_at, ticks_at, asked_in, appended_in, installed_in,
  answered_in, ticks_in, fitting, Balance, Accounts,
}

pub unchanged : (ch : List RaftMessage) → Balance [] ch ch []
unchanged ch = sym (append-nil ch)

pub offer-fitting :
    (msg : RaftMessage) (ch : List RaftMessage) → Balance [] (offer msg ch) ch (fitting true ch msg)
unfolding offer
offer-fitting msg ch =
    split_if (λ (c : List RaftMessage). c ≡ ch ++ fitting true ch msg) (ltb (length ch) 1000) _ _
      (λ y. rw y refl) (λ n. rw n (unchanged ch))

join :
    (a a' before mid after t t' : List RaftMessage)
    → Balance a mid before t
    → Balance a' after mid t'
    → Balance (a ++ a') after before (t ++ t')
join a a' before mid after t t' p q =
    append_assoc a a' after
    ∙ ap (λ (x : List RaftMessage). a ++ x) q
    ∙ sym (append_assoc a mid t')
    ∙ ap (λ (x : List RaftMessage). x ++ t') p
    ∙ append_assoc before t t'

both : {a b c : Node} → Reach a b → Reach b c → Reach a c
both s here = s
both s (next t u) = next (both s t) u

asked-both :
    {a b c : Node} (s : Reach a b) (t : Reach b c) → asked_in (both s t) ≡ asked_in s ++ asked_in t
unfolding both
asked-both s here = sym (append-nil (asked_in s))
asked-both s (next t u) =
    ap (λ (x : List RaftMessage). x ++ asked_at u) (asked-both s t)
    ∙ append_assoc (asked_in s) (asked_in t) (asked_at u)

appended-both :
    {a b c : Node} (s : Reach a b) (t : Reach b c)
    → appended_in (both s t) ≡ appended_in s ++ appended_in t
unfolding both
appended-both s here = sym (append-nil (appended_in s))
appended-both s (next t u) =
    ap (λ (x : List RaftMessage). x ++ appended_at u) (appended-both s t)
    ∙ append_assoc (appended_in s) (appended_in t) (appended_at u)

installed-both :
    {a b c : Node} (s : Reach a b) (t : Reach b c)
    → installed_in (both s t) ≡ installed_in s ++ installed_in t
unfolding both
installed-both s here = sym (append-nil (installed_in s))
installed-both s (next t u) =
    ap (λ (x : List RaftMessage). x ++ installed_at u) (installed-both s t)
    ∙ append_assoc (installed_in s) (installed_in t) (installed_at u)

answered-both :
    {a b c : Node} (s : Reach a b) (t : Reach b c)
    → answered_in (both s t) ≡ answered_in s ++ answered_in t
unfolding both
answered-both s here = sym (append-nil (answered_in s))
answered-both s (next t u) =
    ap (λ (x : List RaftMessage). x ++ answered_at u) (answered-both s t)
    ∙ append_assoc (answered_in s) (answered_in t) (answered_at u)

ticks-both :
    {a b c : Node} (s : Reach a b) (t : Reach b c) → ticks_in (both s t) ≡ ticks_in s + ticks_in t
unfolding both
ticks-both s here = omega arith
ticks-both s (next t u) = omega (arith, ticks-both s t)

-- One account after the other.
pub Accounts-both :
    {r m k : Runtime} {v a i w v' a' i' w' : List RaftMessage} {f f' : ℕ}
    → Accounts r m v a i w f
    → Accounts m k v' a' i' w' f'
    → Accounts r k (v ++ v') (a ++ a') (i ++ i') (w ++ w') (f + f')
Accounts-both {r} {m} {k} {v} {a} {i} {w} {v'} {a'} {i'} {w'} {f} {f'} p q = record {
  steps = both p.steps q.steps;
  votes_lem =
      ap (λ (x : List RaftMessage). x ++ k.vote_ch) (asked-both p.steps q.steps)
      ∙ join (asked_in p.steps) (asked_in q.steps) r.vote_ch m.vote_ch k.vote_ch v v' p.votes_lem
          q.votes_lem;
  appends_lem =
      ap (λ (x : List RaftMessage). x ++ k.append_ch) (appended-both p.steps q.steps)
      ∙ join (appended_in p.steps) (appended_in q.steps) r.append_ch m.append_ch k.append_ch a a'
          p.appends_lem q.appends_lem;
  installs_lem =
      ap (λ (x : List RaftMessage). x ++ k.install_ch) (installed-both p.steps q.steps)
      ∙ join (installed_in p.steps) (installed_in q.steps) r.install_ch m.install_ch k.install_ch i
          i' p.installs_lem q.installs_lem;
  answers_lem =
      answered-both p.steps q.steps
      ∙ ap (λ (x : List RaftMessage). x ++ answered_in q.steps) p.answers_lem
      ∙ ap (λ (x : List RaftMessage). w ++ x) q.answers_lem;
  ticks_lem = omega (arith, ticks-both p.steps q.steps, p.ticks_lem, q.ticks_lem);
}

-- A turn that leaves the node and the message channels alone.
pub idle-Accounts : (r : Runtime) (fires : ℕ) → Accounts r r [] [] [] [] fires
idle-Accounts r fires = record {
  steps = here;
  votes_lem = unchanged r.vote_ch;
  appends_lem = unchanged r.append_ch;
  installs_lem = unchanged r.install_ch;
  answers_lem = refl;
  ticks_lem = omega arith;
}

-- A step of a handler that gets its message or entry from elsewhere than the message channels.
abbrev pub Elsewhere : {n m : Node} → Step n m → Type 0
Elsewhere s = (asked_at s ≡ []) × (appended_at s ≡ []) × (installed_at s ≡ []) × (ticks_at s ≡ 0)

abbrev pub Same : Runtime → Runtime → Type 0
Same r k =
    (k.vote_ch ≡ r.vote_ch)
    × (k.append_ch ≡ r.append_ch)
    × (k.install_ch ≡ r.install_ch)
    × (k.tick_pending ≡ r.tick_pending)

pub took-Accounts :
    (r k : Runtime) (s : Step r.node k.node)
    → Elsewhere s
    → Same r k
    → Accounts r k [] [] [] (answered_at s) 0
took-Accounts r k s h same = record {
  steps = next here s;
  votes_lem = rw (h.0, same.0) (unchanged r.vote_ch);
  appends_lem = rw (h.1, same.1) (unchanged r.append_ch);
  installs_lem = rw (h.2, same.2) (unchanged r.install_ch);
  answers_lem = refl;
  ticks_lem = ground (arith, h.3, same.3);
}
