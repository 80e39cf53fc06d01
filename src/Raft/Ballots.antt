-- ===== src/Raft/Ballots.antt =====
-- The answers of handleRequestVote in internal/raft/raft.go, read off the messages that it sends.
use my_etcd.Base.{
  ◌<◌, ◌≤◌, ◌≡◌, ◌≢◌, ◌⊎◌, ◌↔◌, inl, inr, refl, sym, ◌∙◌, Bool, true, false, List, [], ◌∷◌, ◌++◌,
  Bytes, ltb, ◌==◌, if◌then◌else◌, bytes_eq, nat_eq, arith, Bool-cases, bytes_beq_iff,
}
use my_etcd.Types.{RaftMessage}
use my_etcd.Raft.Node.{Node, Effect, send, last_log_info, adopt_term, respond}
use my_etcd.Raft.Election.{up_to_date, grants, vote_response, handle_request_vote}
use my_etcd.Raft.Steps.{Reach}
use my_etcd.Raft.Votes.{SameVote, respond-SameVote, Reach-VoteStands}

-- The VoteGranted flag of the last output, where that is a message.
abbrev pub last_vote : List Effect → Bool
last_vote [] = false
last_vote (send to msg ∷ []) = msg.vote_granted
last_vote (_ ∷ []) = false
last_vote (_ ∷ e ∷ rest) = last_vote (e ∷ rest)

last_vote-append :
    (xs : List Effect) (to : Bytes) (msg : RaftMessage)
    → last_vote (xs ++ (send to msg ∷ [])) ≡ msg.vote_granted
last_vote-append [] to msg = refl
last_vote-append (x ∷ []) to msg = refl
last_vote-append (x ∷ y ∷ xs) to msg = last_vote-append (y ∷ xs) to msg

-- The node answers the request by a granted vote.
abbrev pub Granted : RaftMessage → Node → Type 0
Granted msg n = last_vote (handle_request_vote msg n).effects ≡ true

-- The candidate's log is at least as new as the node's.
abbrev pub AsNew : RaftMessage → Node → Type 0
AsNew msg n =
    ((last_log_info n.log).1 < msg.last_log_term)
    ⊎ ((msg.last_log_term ≡ (last_log_info n.log).1)
        × ((last_log_info n.log).0 ≤ msg.last_log_index))

last_vote-vote_response :
    (to : Bytes) (granted : Bool) (n : Node)
    → to ≢ []
    → last_vote (vote_response to granted n).effects ≡ granted
unfolding vote_response respond
last_vote-vote_response to granted n named = elim (Bool-cases (to == [])) [
  | inl e ↦ absurd (named ((bytes_beq_iff to []).0 e))
  | inr e ↦ rw e (last_vote-append n.effects to _)
]

vote_response-SameVote :
    (to : Bytes) (granted : Bool) (n : Node) → SameVote n (vote_response to granted n)
unfolding vote_response
vote_response-SameVote to granted n = respond-SameVote to _ n

module _ (msg : RaftMessage) (n : Node) (named : msg.from_id ≢ []) where
  -- The answer is the test of the handler, on every branch.
  answer_lem :
      last_vote (handle_request_vote msg n).effects
      ≡ (if ltb msg.term n.current_term then false else grants msg (adopt_term msg.term n))
  unfolding handle_request_vote
  answer_lem = elim (Bool-cases (ltb msg.term n.current_term)) [
    | inl e ↦ rw e (last_vote-vote_response msg.from_id false n named)
    | inr e ↦ rw e (last_vote-vote_response msg.from_id _ _ named)
  ]

  -- A request from a named candidate is granted exactly when its term is not behind the node's, the
  -- candidate's log is at least as new (its last term is later, or the same with an index that is no
  -- smaller), and the term is new to the node or its vote is free or already the candidate's.
  pub Granted-iff : Granted msg n ↔ (
      (n.current_term ≤ msg.term)
      × AsNew msg n
      × ((n.current_term < msg.term) ⊎ ((n.voted_for ≡ []) ⊎ (n.voted_for ≡ msg.from_id))))
  unfolding grants adopt_term up_to_date
  Granted-iff = (
    λ h.
        ground
          (arith, answer_lem, bytes_beq_iff n.voted_for [], bytes_beq_iff n.voted_for msg.from_id),
    λ h. ground (
      arith,
      answer_lem,
      bytes_beq_iff n.voted_for [],
      bytes_beq_iff n.voted_for msg.from_id,
      bytes_beq_iff [] [],
    ),
  )

  Granted-casts :
      Granted msg n
      → ((handle_request_vote msg n).voted_for ≡ msg.from_id)
        × ((handle_request_vote msg n).current_term ≡ msg.term)
  unfolding handle_request_vote adopt_term
  Granted-casts h = grind (arith, answer_lem, vote_response-SameVote)

-- At most one vote in a term: if a node grants the request `a`, then runs any handlers, with no
-- timer step that overflows the term, and then grants the request `b` of the same term, both
-- requests are from the same candidate. Both name their candidate.
pub one_vote_per_term :
    (a b : RaftMessage) (n m : Node)
    → a.from_id ≢ []
    → b.from_id ≢ []
    → Granted a n
    → Reach (handle_request_vote a n) m
    → Granted b m
    → a.term ≡ b.term
    → a.from_id ≡ b.from_id
one_vote_per_term a b n m named_a named_b ga r gb e =
    let cast = Granted-casts a n named_a ga in
    let stands = Reach-VoteStands r in
    let rule = (Granted-iff b m named_b).0 gb in
    let same : m.current_term ≡ a.term = omega (arith, e, stands.term_le, rule.0, cast.1) in
    let kept = stands.vote_kept (cast.1 ∙ sym same) (λ z. named_a (sym cast.0 ∙ z)) in
    elim rule.2 [
      | inl later ↦ absurd (omega (arith, later, same, e))
      | inr (inl free) ↦ absurd (named_a (sym cast.0 ∙ (sym kept ∙ free)))
      | inr (inr own) ↦ sym cast.0 ∙ (sym kept ∙ own)
    ]
