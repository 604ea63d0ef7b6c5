-- ===== src/Cgatepp/Dumper/Replayed.antt =====
-- What is recorded is what is replayed.
use itex_demo.Cgatepp.Dumper.{
  set_unknown_msg, unknown_msg_type, set_mq_timeout, mq_timeout, set_mq_reply, mq_reply, dumping,
  set_repl_replstate, repl_replstate, unless_replaying, call_repl_replstate, get_repl_replstate,
  on_unknown_msg_type, set_repl_cleardeleted, get_repl_cleardeleted, repl_cleardeleted,
  on_mq_timeout, get_repl_lifenum, call_repl_cleardeleted, on_mq_reply, on_repl_replstate,
  get_unknown_msg, set_repl_lifenum, on_repl_creardeleted, get_mq_timeout, repl_lifenum,
  call_repl_lifenum, get_mq_reply, on_repl_lifenum, on_repl_online, repl_online, get_stream_data,
  replay_stream_data, transaction_commit, on_stream_data, replay_data, on_transaction_commit,
  transaction_begin, dumper_open, listener_close, call_unknown_msg_type, on_transaction_begin,
  msg_data, stream_data_record, listener_open, on_listener_close, call_mq_timeout, call_mq_reply,
  replay_recorded_stream, on_listener_open, write_and_pass, bare_record, handle, MsgTypes,
  replay_records, replay_by_type, open_dumper, handle_all,
}
use itex_demo.Base.{
  zero, Bool, append_assoc, append-nil, arith, ◌>>=◌, ◌++◌, some, ◌+◌, true, refl, suc, ◌^◌, [], ap,
  ◌≤◌, map, ◌<◌, ◌∷◌, none, take, ◌≡◌, length, ℕ, List,
}
use itex_demo.Cgatepp.Listener.{
  call_repl_online, call_transaction_commit, call_transaction_begin, call_listener_close,
  call_listener_open, call_stream_data, Call,
}
use itex_demo.Cgatepp.Record.{
  get_stream_data, get_mq_reply, get_mq_timeout, get_unknown_msg, get_repl_lifenum,
  get_repl_cleardeleted, get_repl_replstate, Record,
}
use itex_demo.Cgatepp.Volumes.{Message, Files}
use itex_demo.Cgatepp.Volumes.Holding.{Holds, AllWritable, write_next-Holds, open_files-Holds}
use itex_demo.Cgatepp.Volumes.Replay.{replay-Holds}

-- The record that the handler of a call writes.
unfoldable pub record_of : ℕ → Call → Record
record_of time call_listener_open = bare_record listener_open time
record_of time call_listener_close = bare_record listener_close time
record_of time call_transaction_begin = bare_record transaction_begin time
record_of time call_transaction_commit = bare_record transaction_commit time
record_of time (call_stream_data msg) = stream_data_record time msg
record_of time call_repl_online = bare_record repl_online time
record_of time (call_repl_lifenum lifenum) = record {
  record_type = repl_lifenum;
  timestamp = time;
  p2_message = set_repl_lifenum lifenum;
}
record_of time (call_repl_cleardeleted msg) = record {
  record_type = repl_cleardeleted;
  timestamp = time;
  p2_message =
      set_repl_cleardeleted (record { table_idx = msg.table_idx; table_rev = msg.table_rev });
}
record_of time (call_repl_replstate replstate) = record {
  record_type = repl_replstate;
  timestamp = time;
  p2_message = set_repl_replstate replstate;
}
record_of time (call_mq_reply msg) = record {
  record_type = mq_reply;
  timestamp = time;
  p2_message = set_mq_reply (msg_data msg);
}
record_of time (call_mq_timeout msg) = record {
  record_type = mq_timeout;
  timestamp = time;
  p2_message = set_mq_timeout (msg_data msg);
}
record_of time (call_unknown_msg_type msg) = record {
  record_type = unknown_msg_type;
  timestamp = time;
  p2_message =
      set_unknown_msg (record { type = msg.type; data_bytes = take msg.data_size msg.data_bytes });
}

abbrev pub records_of_events : List (ℕ × Call) → List Record
records_of_events [] = []
records_of_events ((time, call) ∷ events) = record_of time call ∷ records_of_events events

abbrev pub calls_of : List (ℕ × Call) → List Call
calls_of [] = []
calls_of ((time, call) ∷ events) = call ∷ calls_of events

-- A call whose buffers are as long as their sizes say.
abbrev pub Whole : Call → Type 0
Whole (call_stream_data msg) =
    (length msg.data_bytes ≡ msg.data_size) × (length msg.nulls ≡ msg.num_nulls)
Whole (call_mq_reply msg) = length msg.data_bytes ≡ msg.data_size
Whole (call_mq_timeout msg) = length msg.data_bytes ≡ msg.data_size
Whole (call_unknown_msg_type msg) = length msg.data_bytes ≡ msg.data_size
Whole _ = Unit

abbrev pub AllWhole : List (ℕ × Call) → Type 0
AllWhole [] = Unit
AllWhole ((time, call) ∷ events) = Whole call × AllWhole events

-- What a replay makes of a call: the type of a message is the one that its kind has, and the pointer
-- of a data message is null.
unfoldable pub replayed : MsgTypes → Call → Call
replayed types (call_stream_data msg) =
    call_stream_data (record msg { type = types.cg_msg_stream_data })
replayed types (call_mq_reply msg) =
    call_mq_reply (record msg { type = types.cg_msg_data; ref_msg = none })
replayed types (call_mq_timeout msg) =
    call_mq_timeout (record msg { type = types.cg_msg_data; ref_msg = none })
replayed types call = call

take-whole : {A : Type 0} (n : ℕ) (xs : List A) → length xs ≡ n → take n xs ≡ xs
take-whole zero [] h = refl
take-whole zero (x ∷ xs) h = ground arith
take-whole (suc n) [] h = refl
take-whole (suc n) (x ∷ xs) h = ap (λ ys. x ∷ ys) (take-whole n xs (omega (arith, h)))

replay_by_type-record_of :
    (types : MsgTypes) (time : ℕ) (call : Call)
    → Whole call
    → replay_by_type types (record_of time call).record_type (record_of time call).p2_message
      ≡ replayed types call ∷ []
unfolding replay_by_type record_of replayed bare_record stream_data_record msg_data replay_data
    replay_stream_data get_stream_data get_mq_reply get_mq_timeout get_unknown_msg get_repl_lifenum
    get_repl_cleardeleted get_repl_replstate
replay_by_type-record_of types time call_listener_open h = refl
replay_by_type-record_of types time call_listener_close h = refl
replay_by_type-record_of types time call_transaction_begin h = refl
replay_by_type-record_of types time call_transaction_commit h = refl
replay_by_type-record_of types time (call_stream_data msg) h =
    rw (take-whole msg.data_size msg.data_bytes h.0, take-whole msg.num_nulls msg.nulls h.1, h.0)
      refl
replay_by_type-record_of types time call_repl_online h = refl
replay_by_type-record_of types time (call_repl_lifenum lifenum) h = refl
replay_by_type-record_of types time (call_repl_cleardeleted msg) h = refl
replay_by_type-record_of types time (call_repl_replstate replstate) h = refl
replay_by_type-record_of types time (call_mq_reply msg) h =
    rw (take-whole msg.data_size msg.data_bytes h, h) refl
replay_by_type-record_of types time (call_mq_timeout msg) h =
    rw (take-whole msg.data_size msg.data_bytes h, h) refl
replay_by_type-record_of types time (call_unknown_msg_type msg) h =
    rw (take-whole msg.data_size msg.data_bytes h, h) refl

replay_records-records_of_events :
    (types : MsgTypes) (events : List (ℕ × Call))
    → AllWhole events
    → replay_records types (records_of_events events) ≡ map (replayed types) (calls_of events)
unfolding replay_records
replay_records-records_of_events types [] h = refl
replay_records-records_of_events types ((time, call) ∷ events) h =
    rw
      (
        replay_by_type-record_of types time call h.0,
        replay_records-records_of_events types events h.1,
      )
      refl

replay_records-opened :
    (types : MsgTypes) (opened : ℕ) (events : List (ℕ × Call))
    → AllWhole events
    → replay_records types (bare_record dumper_open opened ∷ records_of_events events)
      ≡ map (replayed types) (calls_of events)
unfolding replay_records replay_by_type bare_record
replay_records-opened types opened events h = replay_records-records_of_events types events h

length-records_of_events :
    (events : List (ℕ × Call)) → length (records_of_events events) ≡ length events
length-records_of_events [] = refl
length-records_of_events (e ∷ events) = ap suc (length-records_of_events events)

module _ (message : Message Record) where
  -- While it does not replay, a handler writes the call's record and passes the call on.
  handle-record_of :
      (wrapped : Bool) (time : ℕ) (call : Call) (d : Files)
      → d.state ≡ dumping
      → handle message wrapped time call d
        ≡ write_and_pass message wrapped (record_of time call) call d
  unfolding handle record_of on_listener_open on_listener_close on_transaction_begin
      on_transaction_commit on_stream_data on_repl_online on_repl_lifenum on_repl_creardeleted
      on_repl_replstate on_mq_reply on_mq_timeout on_unknown_msg_type unless_replaying
  handle-record_of wrapped time call_listener_open d e = rw e refl
  handle-record_of wrapped time call_listener_close d e = rw e refl
  handle-record_of wrapped time call_transaction_begin d e = rw e refl
  handle-record_of wrapped time call_transaction_commit d e = rw e refl
  handle-record_of wrapped time (call_stream_data msg) d e = rw e refl
  handle-record_of wrapped time call_repl_online d e = rw e refl
  handle-record_of wrapped time (call_repl_lifenum lifenum) d e = rw e refl
  handle-record_of wrapped time (call_repl_cleardeleted msg) d e = rw e refl
  handle-record_of wrapped time (call_repl_replstate replstate) d e = rw e refl
  handle-record_of wrapped time (call_mq_reply msg) d e = rw e refl
  handle-record_of wrapped time (call_mq_timeout msg) d e = rw e refl
  handle-record_of wrapped time (call_unknown_msg_type msg) d e = rw e refl

  handle_all-Holds :
      (file_size : ℕ) (events : List (ℕ × Call)) (rss : List Record) (d : Files)
      → file_size < 2 ^ 64
      → AllWritable message file_size (records_of_events events)
      → Holds message file_size rss d
      → (d' : Files) × (handle_all message true events d ≡ some (d', calls_of events))
        × Holds message file_size (rss ++ records_of_events events) d'
  unfolding handle_all write_and_pass
  handle_all-Holds file_size [] rss d sized w h = (d, refl, rw (append-nil rss) h)
  handle_all-Holds file_size ((time, call) ∷ events) rss d sized w h =
      let r = record_of time call in
      let (d₁, e₁, h₁) = write_next-Holds message file_size r rss d sized w.0 h in
      let (d₂, e₂, h₂) = handle_all-Holds file_size events (rss ++ (r ∷ [])) d₁ sized w.1 h₁ in
      (
        d₂,
        rw (handle-record_of true time call d (ap (λ (f : Files). f.state) h.shape), e₁)
            (rw e₂ refl),
        rw (append_assoc rss (r ∷ []) (records_of_events events)) at h₂,
      )

  -- The recorder with a handler wrapped in it, on a place without volumes: every call that comes is
  -- passed on, in order, and a replay makes the same calls again, in the same order, and leaves the
  -- files as they were. What a replay changes is a message's type, which becomes the one of its
  -- kind, also for a timeout, and the pointer `ref_msg`, which becomes null. Each call's buffers are
  -- as long as it says, each record is of at most 65535 bytes and fits into an empty volume, and
  -- the fuel is above the number of records, one of which is written at opening.
  pub replay_recorded_stream-handle_all :
      (types : MsgTypes) (file_size fuel opened : ℕ) (events : List (ℕ × Call))
      → 8 ≤ file_size
      → file_size < 2 ^ 64
      → AllWritable message file_size (bare_record dumper_open opened ∷ records_of_events events)
      → AllWhole events
      → length events + 1 < fuel
      → (d : Files) × ((open_dumper message opened file_size [] >>= handle_all message true events)
          ≡ some (d, calls_of events))
        × (replay_recorded_stream message true types fuel d
            ≡ some (d, map (replayed types) (calls_of events)))
  unfolding open_dumper replay_recorded_stream
  replay_recorded_stream-handle_all types file_size fuel opened events room sized w whole f =
      let r = bare_record dumper_open opened in
      let (d₀, e₀, h₀) = open_files-Holds message file_size room in
      let (d₁, e₁, h₁) = write_next-Holds message file_size r [] d₀ sized w.0 h₀ in
      let (d, e, h) = handle_all-Holds file_size events (r ∷ []) d₁ sized w.1 h₁ in
      (
        d,
        rw (e₀, e₁) e,
        rw
            (replay-Holds message file_size fuel _ d sized h
              (omega (arith, length-records_of_events events)))
            (ap (λ cs. some (d, cs)) (replay_records-opened types opened events whole)),
      )
