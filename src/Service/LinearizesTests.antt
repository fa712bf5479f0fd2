-- ===== src/Service/LinearizesTests.antt =====
-- Two clients at once.
use fine_db.Prelude.{◌≡◌, ◌≤◌, ℕ, zero, suc, refl, inl, true, false, [], ◌∷◌, Bytes, arith}
use fine_db.Lmdb.Sample.{sample, sample-IsLmdb, empty_disk}
use fine_db.Database.Atomic.{CommitsSucceed}
use fine_db.Wire.{ntohs, htons, htonl}
use fine_db.Protocol.{
  request_command, request_has_sync, request_has_compressed, request_has_serialized, command_code,
  request_add_sync, request_add_compressed,
}
use fine_db.Socket.{sendmsg, received}
use fine_db.Socket.Read.{read_loop, stream}
use fine_db.Server.Sample.{
  libraries, begun, begun-IsHealthy, list-IsDynabin, list-HasMemory, marking-IsSnappy,
}
use fine_db.Service.{put_data, get_data}
use fine_db.Exec.{◌>>=◌, label}
use fine_db.Server.{
  connection_send_error, connection_send_response, read, connection_read_data, on_env, ymalloc,
}
use fine_db.Database.{database_get, transaction_init}
use fine_db.Command.Reply.{read_key}
use fine_db.Command.Get.{command_get, get_reply, to_send}
use fine_db.Connection.{serve_request, on_request, execute, commands, is_some}
use fine_db.Service.Progress.{conversation_ends}
use fine_db.Service.Concurrent.{
  all_tears, torn_rounds, rounds, Conversation, Shared, AdvanceAll, Connected, World, thread_round,
  HappenAll, no_round, round_more,
}
use fine_db.Service.Turns.{Stands, Represents}
use fine_db.Service.Linearizes.{threads_follow}

sample_commits : CommitsSucceed (sample false) (sample-IsLmdb false)
sample_commits t e h = ground arith

abbrev put_bytes : Bytes
put_bytes = 83 ∷ 0 ∷ 1 ∷ 107 ∷ 0 ∷ 0 ∷ 0 ∷ 2 ∷ 0 ∷ 118 ∷ []

abbrev get_bytes : Bytes
get_bytes = 65 ∷ 0 ∷ 1 ∷ 107 ∷ []

-- The first client has sent a PUT, the second one a GET of the same key; the other threads are idle.
abbrev threads : ℕ → Connected libraries
threads zero = record { state = begun (received put_bytes ∷ []); is_open = true }
threads (suc zero) = record { state = begun (received get_bytes ∷ []); is_open = true }
threads (suc (suc i)) = record { state = begun []; is_open = false }

abbrev talks : ℕ → Conversation
talks zero = record {
  left = put_data (107 ∷ []) (0 ∷ 118 ∷ []) ∷ [];
  part = [];
  said = [];
  is_open = true;
  pending = [];
}
talks (suc zero) = record {
  left = get_data (107 ∷ []) ∷ [];
  part = [];
  said = [];
  is_open = true;
  pending = [];
}
talks (suc (suc i)) = record { left = []; part = []; said = []; is_open = false; pending = [] }

abbrev world : World libraries
world = record { env = empty_disk; threads = threads }

abbrev shared : Shared
shared = record { store = (sample-IsLmdb false).committed empty_disk; talks = talks }

stands :
    (i : ℕ)
    → Stands libraries (sample-IsLmdb false) list-IsDynabin list-HasMemory (threads i) (talks i)
unfolding htons htonl stream command_code request_add_sync request_add_compressed
stands zero = record {
  same_open = refl;
  same_sent = refl;
  same_pending = refl;
  on_default = tt;
  goes_on = λ alive. record {
    plain = record { healthy = begun-IsHealthy _; outside = refl; default = refl; posts = refl };
    fit = ((omega arith, omega arith), tt);
    cut = inl refl;
    front = refl;
  };
}
stands (suc zero) = record {
  same_open = refl;
  same_sent = refl;
  same_pending = refl;
  on_default = tt;
  goes_on = λ alive. record {
    plain = record { healthy = begun-IsHealthy _; outside = refl; default = refl; posts = refl };
    fit = (omega arith, tt);
    cut = inl refl;
    front = refl;
  };
}
stands (suc (suc i)) = record {
  same_open = refl;
  same_sent = refl;
  same_pending = refl;
  on_default = tt;
  goes_on = λ alive. absurd (ground (arith, alive));
}

-- The second client's round, and then the first one's.
happened : (w : World libraries) × HappenAll libraries world w
happened = (_, round_more (round_more no_round (thread_round 1 refl)) (thread_round 0 refl))

threads_follow_example :
    (b : Shared) × (run : AdvanceAll shared b) × (all_tears run ≡ torn_rounds libraries happened.1)
    × Represents libraries (sample-IsLmdb false) list-IsDynabin list-HasMemory happened.0 b
threads_follow_example =
    threads_follow libraries (sample-IsLmdb false) list-IsDynabin list-HasMemory marking-IsSnappy
      sample_commits world happened.0 shared (record { same_store = refl; stands = stands })
      happened.1

-- The second client's round, the first one's, and the round in which the second one has left.
ended : (w : World libraries) × HappenAll libraries world w
unfolding htons ntohs htonl stream command_code request_add_compressed serve_request on_request
    execute commands is_some request_command request_has_sync request_has_compressed
    request_has_serialized connection_send_error connection_send_response sendmsg read
    connection_read_data read_loop ◌>>=◌ label read_key command_get get_reply to_send on_env ymalloc
    database_get transaction_init
ended = (
  _,
  round_more (round_more (round_more no_round (thread_round 1 refl)) (thread_round 0 refl))
      (thread_round 1 refl),
)

conversation_ends_example :
    (rounds libraries 1 ended.1 ≤ 2)
    × (rounds libraries 1 ended.1 ≡ 2 → (ended.0.threads 1).is_open ≡ false)
conversation_ends_example =
    conversation_ends libraries (sample-IsLmdb false) list-IsDynabin list-HasMemory marking-IsSnappy
      sample_commits 1 world ended.0 shared (record { same_store = refl; stands = stands }) ended.1
