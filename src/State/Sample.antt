-- ===== src/State/Sample.antt =====
-- A codec that meets what the theorems of internal/state ask of one, and commands to try them on.
use cosmosigner.Prelude.{
  ℕ, zero, suc, ◌≡◌, refl, Bytes, codes, bytes_eq, bytes_eq_iff, ◌&&◌, Option, none, some, [], ◌∷◌,
  ◌++◌, length, take, drop, take-length_append, drop-length_append, arith, ◌==◌, subst, some_inj,
}
use cosmosigner.Prelude.Int.{ℤ, pos, negsuc}
use cosmosigner.State.{
  Op, reserve, commit, init_cluster, unknown, Command, Message, Codec, zero_time,
}
use cosmosigner.State.Fsm.{Fsm}
use cosmosigner.State.Fsm.Timestamps.{IsLawful}
use cosmosigner.State.RaftStore.{reserve_command, commit_command}
use cosmosigner.State.RaftStore.Accepted.{RoundTrips}

-- A message is its time and its content.
abbrev timed : Bytes → Option (ℕ × Bytes)
timed [] = none
timed (ts ∷ content) = some (ts, content)

abbrev message : Message
message = record {
  Payload = ℕ × Bytes;
  unmarshal = timed;
  timestamp = λ m. m.0;
  set_timestamp = λ m ts. (ts, m.1);
  equal = λ a b. a.0 == b.0 && bytes_eq a.1 b.1;
}

pub message-IsLawful : IsLawful message
message-IsLawful = record {
  equal_iff =
      λ a b. (λ h. ground (arith, bytes_eq_iff a.1 b.1), λ h. ground (arith, bytes_eq_iff a.1 b.1));
  set_set = λ a s t. refl;
  set_get = λ a. refl;
}

abbrev sign_of : ℤ → ℕ
sign_of (pos n) = 0
sign_of (negsuc n) = 1

abbrev size_of : ℤ → ℕ
size_of (pos n) = n
size_of (negsuc n) = n

abbrev int_of : ℕ → ℕ → ℤ
int_of zero n = pos n
int_of (suc s) n = negsuc n

abbrev body : Command → Bytes
body c =
    sign_of c.height
    ∷ size_of c.height
    ∷ sign_of c.round
    ∷ size_of c.round
    ∷ sign_of c.step
    ∷ size_of c.step
    ∷ c.timestamp
    ∷ length c.chain_id
    ∷ length c.sign_bytes
    ∷ length c.signature
    ∷ (c.chain_id ++ (c.sign_bytes ++ (c.signature ++ c.cluster_id)))

abbrev tagged : Op → Bytes → Option Bytes
tagged reserve b = some (0 ∷ b)
tagged commit b = some (1 ∷ b)
tagged init_cluster b = some (2 ∷ b)
tagged (unknown t) b = none

abbrev op_of : ℕ → Op
op_of zero = reserve
op_of (suc zero) = commit
op_of (suc (suc n)) = init_cluster

abbrev parse : Bytes → Option Command
parse (t ∷ h ∷ h' ∷ r ∷ r' ∷ s ∷ s' ∷ ts ∷ n ∷ b ∷ g ∷ rest) = some (record {
  op = op_of t;
  chain_id = take n rest;
  height = int_of h h';
  round = int_of r r';
  step = int_of s s';
  sign_bytes = take b (drop n rest);
  signature = take g (drop b (drop n rest));
  timestamp = ts;
  cluster_id = drop g (drop b (drop n rest));
})
parse _ = none

abbrev pub codec : Codec
codec = record {
  proposal = message;
  vote = message;
  marshal_command = λ c. tagged c.op (body c);
  unmarshal_command = parse;
}

int_again : (z : ℤ) → int_of (sign_of z) (size_of z) ≡ z
int_again (pos n) = refl
int_again (negsuc n) = refl

parsed : (t : ℕ) (c : Command) → parse (t ∷ body c) ≡ some (record c { op = op_of t })
parsed t c = simp (int_again, take-length_append, drop-length_append)

tagged_back :
    (o : Op) (c : Command) (log_data : Bytes)
    → tagged o (body c) ≡ some log_data
    → parse log_data ≡ some (record c { op = o })
tagged_back reserve c log_data h =
    subst (λ (d : Bytes). parse d ≡ some (record c { op = reserve })) (some_inj.0 h) (parsed 0 c)
tagged_back commit c log_data h =
    subst (λ (d : Bytes). parse d ≡ some (record c { op = commit })) (some_inj.0 h) (parsed 1 c)
tagged_back init_cluster c log_data h =
    subst (λ (d : Bytes). parse d ≡ some (record c { op = init_cluster })) (some_inj.0 h)
      (parsed 2 c)
tagged_back (unknown t) c log_data h = cc h

pub codec-RoundTrips : (c : Command) → RoundTrips codec c
codec-RoundTrips c log_data h = tagged_back c.op c log_data h

abbrev pub chain : Bytes
chain = codes "hub-1"

-- A prevote, the same prevote at another time, and another one for the same place.
abbrev pub prevote : Command
prevote = reserve_command chain (pos 5) (pos 0) (pos 2) (7 ∷ 1 ∷ 2 ∷ []) 7

abbrev pub retimed : Command
retimed = reserve_command chain (pos 5) (pos 0) (pos 2) (9 ∷ 1 ∷ 2 ∷ []) 9

abbrev pub other : Command
other = reserve_command chain (pos 5) (pos 0) (pos 2) (7 ∷ 1 ∷ 3 ∷ []) 7

abbrev pub precommit : Command
precommit = reserve_command chain (pos 5) (pos 0) (pos 3) (8 ∷ 1 ∷ 2 ∷ []) 8

abbrev pub committed : Command
committed = commit_command chain (pos 5) (pos 0) (pos 2) (7 ∷ 1 ∷ 2 ∷ []) (4 ∷ 4 ∷ [])

abbrev pub blank : Fsm
blank = record { cluster_id = []; state = [] }

abbrev pub first_id : Bytes
first_id = codes "0a1b2c3d-4e5f-4071-8293-a4b5c6d7e8f9"

abbrev pub second_id : Bytes
second_id = codes "ffffffff-0000-4000-b000-000000000001"

abbrev initialise : Bytes → Command
initialise id = record {
  op = init_cluster;
  chain_id = [];
  height = pos 0;
  round = pos 0;
  step = pos 0;
  sign_bytes = [];
  signature = [];
  timestamp = zero_time;
  cluster_id = id;
}

abbrev pub claimed : Command
claimed = initialise first_id

abbrev pub claimed_again : Command
claimed_again = initialise second_id

abbrev pub named : Fsm
named = record { cluster_id = first_id; state = [] }

-- The log entry of a command.
abbrev pub logged : Command → Bytes
logged c = elim (codec.marshal_command c) [ none ↦ [] | some b ↦ b ]
