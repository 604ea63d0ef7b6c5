-- ===== src/Cgatepp/Dumper.antt =====
-- services/cgatepp/src/dumper.cpp, the handlers: a call that the recorder gets is written as a record
-- and passed on to the handler that it wraps, if there is one (`wrapped`); a replay makes the calls
-- again from the records. The calls passed on are a list. The numbers of two message types, the
-- exchange library's, are parameters.
pub mod Replayed
mod Tests
use itex_demo.Base.{
  ◌++◌, if◌then◌else◌, ◌>>=◌, [], some, none, ◌∷◌, Option, Bool, length, List, take, ℕ,
}
use itex_demo.Cgatepp.Listener.{
  call_mq_timeout, call_repl_cleardeleted, call_unknown_msg_type, call_repl_replstate,
  call_mq_reply, call_repl_online, call_transaction_begin, call_listener_close,
  call_transaction_commit, call_repl_lifenum, call_stream_data, call_listener_open, StreamMsg,
  DataMsg, Msg, ClearDeletedMsg, Call,
}
use itex_demo.Cgatepp.Record.{
  get_unknown_msg, get_mq_timeout, get_mq_reply, get_repl_replstate, get_repl_cleardeleted,
  get_repl_lifenum, get_stream_data, dumper_open, set_repl_cleardeleted, set_repl_lifenum,
  set_unknown_msg, set_repl_replstate, set_mq_reply, set_mq_timeout, repl_lifenum, mq_reply,
  listener_open, set_stream_data, repl_replstate, mq_timeout, transaction_begin, repl_online,
  listener_close, transaction_commit, repl_cleardeleted, unknown_msg_type, dumper_close,
  stream_data, not_set, StreamData, Record, RecordType, P2Message, MsgData,
}
use itex_demo.Cgatepp.Volumes.{
  Message, Files, State, dumping, replaying, write_next, replay, open_files,
}

-- `CG_MSG_STREAM_DATA` and `CG_MSG_DATA`
pub record MsgTypes : Type 0 where
  pub cg_msg_stream_data : ℕ
  pub cg_msg_data : ℕ

-- A record without a message of its own.
unfoldable pub bare_record : RecordType → ℕ → Record
bare_record type time = record { record_type = type; timestamp = time; p2_message = not_set }

unfoldable pub stream_data_record : ℕ → StreamMsg → Record
stream_data_record time msg = record {
  record_type = stream_data;
  timestamp = time;
  p2_message = set_stream_data (record {
    data_bytes = take msg.data_size msg.data_bytes;
    msg_index = msg.msg_index;
    msg_id = msg.msg_id;
    msg_name = msg.msg_name;
    rev = msg.rev;
    num_nulls = msg.num_nulls;
    nulls = take msg.num_nulls msg.nulls;
  });
}

-- What `on_mq_reply` and `on_mq_timeout` put into their records.
unfoldable pub msg_data : DataMsg → MsgData
msg_data msg = record {
  data_bytes = take msg.data_size msg.data_bytes;
  msg_index = msg.msg_index;
  msg_id = msg.msg_id;
  msg_name = msg.msg_name;
  user_id = msg.user_id;
  addr = msg.addr;
}

module _ (message : Message Record) (wrapped : Bool) where
  -- How every handler goes on once it has its record.
  unfoldable pub write_and_pass : Record → Call → Files → Option (Files × List Call)
  write_and_pass r call d = do
    d' ← write_next message r d
    some (d', if wrapped then call ∷ [] else [])

  -- How every handler begins: while replaying it does nothing.
  unfoldable pub unless_replaying : State → Record → Call → Files → Option (Files × List Call)
  unless_replaying replaying r call d = some (d, [])
  unless_replaying dumping r call d = write_and_pass r call d

  unfoldable pub on_listener_open : ℕ → Files → Option (Files × List Call)
  on_listener_open time d =
      unless_replaying d.state (bare_record listener_open time) call_listener_open d

  unfoldable pub on_listener_close : ℕ → Files → Option (Files × List Call)
  on_listener_close time d =
      unless_replaying d.state (bare_record listener_close time) call_listener_close d

  unfoldable pub on_transaction_begin : ℕ → Files → Option (Files × List Call)
  on_transaction_begin time d =
      unless_replaying d.state (bare_record transaction_begin time) call_transaction_begin d

  unfoldable pub on_transaction_commit : ℕ → Files → Option (Files × List Call)
  on_transaction_commit time d =
      unless_replaying d.state (bare_record transaction_commit time) call_transaction_commit d

  unfoldable pub on_stream_data : ℕ → StreamMsg → Files → Option (Files × List Call)
  on_stream_data time msg d =
      unless_replaying d.state (stream_data_record time msg) (call_stream_data msg) d

  unfoldable pub on_repl_online : ℕ → Files → Option (Files × List Call)
  on_repl_online time d = unless_replaying d.state (bare_record repl_online time) call_repl_online d

  unfoldable pub on_repl_lifenum : ℕ → ℕ → Files → Option (Files × List Call)
  on_repl_lifenum time lifenum d =
      let r : Record = record {
        record_type = repl_lifenum;
        timestamp = time;
        p2_message = set_repl_lifenum lifenum;
      } in
      unless_replaying d.state r (call_repl_lifenum lifenum) d

  unfoldable pub on_repl_creardeleted : ℕ → ClearDeletedMsg → Files → Option (Files × List Call)
  on_repl_creardeleted time msg d =
      let r : Record = record {
        record_type = repl_cleardeleted;
        timestamp = time;
        p2_message =
            set_repl_cleardeleted (record { table_idx = msg.table_idx; table_rev = msg.table_rev });
      } in
      unless_replaying d.state r (call_repl_cleardeleted msg) d

  unfoldable pub on_repl_replstate : ℕ → List ℕ → Files → Option (Files × List Call)
  on_repl_replstate time replstate d =
      let r : Record = record {
        record_type = repl_replstate;
        timestamp = time;
        p2_message = set_repl_replstate replstate;
      } in
      unless_replaying d.state r (call_repl_replstate replstate) d

  unfoldable pub on_mq_reply : ℕ → DataMsg → Files → Option (Files × List Call)
  on_mq_reply time msg d =
      let r : Record = record {
        record_type = mq_reply;
        timestamp = time;
        p2_message = set_mq_reply (msg_data msg);
      } in
      unless_replaying d.state r (call_mq_reply msg) d

  unfoldable pub on_mq_timeout : ℕ → DataMsg → Files → Option (Files × List Call)
  on_mq_timeout time msg d =
      let r : Record = record {
        record_type = mq_timeout;
        timestamp = time;
        p2_message = set_mq_timeout (msg_data msg);
      } in
      unless_replaying d.state r (call_mq_timeout msg) d

  unfoldable pub on_unknown_msg_type : ℕ → Msg → Files → Option (Files × List Call)
  on_unknown_msg_type time msg d =
      let r : Record = record {
        record_type = unknown_msg_type;
        timestamp = time;
        p2_message =
            set_unknown_msg
              (record { type = msg.type; data_bytes = take msg.data_size msg.data_bytes });
      } in
      unless_replaying d.state r (call_unknown_msg_type msg) d

  -- A call made of the recorder, and several, each at its time.
  unfoldable pub handle : ℕ → Call → Files → Option (Files × List Call)
  handle time call_listener_open = on_listener_open time
  handle time call_listener_close = on_listener_close time
  handle time call_transaction_begin = on_transaction_begin time
  handle time call_transaction_commit = on_transaction_commit time
  handle time (call_stream_data msg) = on_stream_data time msg
  handle time call_repl_online = on_repl_online time
  handle time (call_repl_lifenum lifenum) = on_repl_lifenum time lifenum
  handle time (call_repl_cleardeleted msg) = on_repl_creardeleted time msg
  handle time (call_repl_replstate replstate) = on_repl_replstate time replstate
  handle time (call_mq_reply msg) = on_mq_reply time msg
  handle time (call_mq_timeout msg) = on_mq_timeout time msg
  handle time (call_unknown_msg_type msg) = on_unknown_msg_type time msg

  unfoldable pub handle_all : List (ℕ × Call) → Files → Option (Files × List Call)
  handle_all [] d = some (d, [])
  handle_all ((time, call) ∷ events) d = do
    (d', passed) ← handle time call d
    (d'', rest) ← handle_all events d'
    some (d'', passed ++ rest)

-- The message that a replay makes of a record of a data message.
unfoldable pub replay_data : MsgTypes → MsgData → DataMsg
replay_data types m = record {
  type = types.cg_msg_data;
  data_size = length m.data_bytes;
  data_bytes = m.data_bytes;
  msg_index = m.msg_index;
  msg_id = m.msg_id;
  msg_name = m.msg_name;
  user_id = m.user_id;
  addr = m.addr;
  ref_msg = none;
}

unfoldable pub replay_stream_data : MsgTypes → StreamData → StreamMsg
replay_stream_data types m = record {
  type = types.cg_msg_stream_data;
  data_size = length m.data_bytes;
  data_bytes = m.data_bytes;
  msg_index = m.msg_index;
  msg_id = m.msg_id;
  msg_name = m.msg_name;
  rev = m.rev;
  num_nulls = m.num_nulls;
  nulls = m.nulls;
}

-- The `switch` of `replay_recorded_stream`: the calls of the wrapped handler for one record.
unfoldable pub replay_by_type : MsgTypes → RecordType → P2Message → List Call
replay_by_type types listener_open m = call_listener_open ∷ []
replay_by_type types listener_close m = call_listener_close ∷ []
replay_by_type types transaction_begin m = call_transaction_begin ∷ []
replay_by_type types transaction_commit m = call_transaction_commit ∷ []
replay_by_type types stream_data m =
    call_stream_data (replay_stream_data types (get_stream_data m)) ∷ []
replay_by_type types repl_online m = call_repl_online ∷ []
replay_by_type types repl_lifenum m = call_repl_lifenum (get_repl_lifenum m) ∷ []
replay_by_type types repl_cleardeleted m =
    let c = get_repl_cleardeleted m in
    call_repl_cleardeleted (record { table_idx = c.table_idx; table_rev = c.table_rev }) ∷ []
replay_by_type types repl_replstate m = call_repl_replstate (get_repl_replstate m) ∷ []
replay_by_type types mq_reply m = call_mq_reply (replay_data types (get_mq_reply m)) ∷ []
replay_by_type types mq_timeout m = call_mq_timeout (replay_data types (get_mq_timeout m)) ∷ []
replay_by_type types unknown_msg_type m =
    let g = get_unknown_msg m in
    call_unknown_msg_type
      (record { type = g.type; data_size = length g.data_bytes; data_bytes = g.data_bytes })
    ∷ []
replay_by_type types dumper_open m = []
replay_by_type types dumper_close m = []

unfoldable pub replay_records : MsgTypes → List Record → List Call
replay_records types [] = []
replay_records types (r ∷ rs) =
    replay_by_type types r.record_type r.p2_message ++ replay_records types rs

-- `replay_recorded_stream` without its waits: the calls of the wrapped handler.
unfoldable pub replay_recorded_stream :
    Message Record → Bool → MsgTypes → ℕ → Files → Option (Files × List Call)
replay_recorded_stream message wrapped types fuel d =
    if wrapped
    then (do (d', rs) ← replay message fuel d; some (d', replay_records types rs))
    else some (d, [])

-- `Dumper::Dumper` and `Dumper::~Dumper`
unfoldable pub open_dumper : Message Record → ℕ → ℕ → List (List ℕ) → Option Files
open_dumper message time file_size volumes = do
  d ← open_files file_size volumes
  write_next message (bare_record dumper_open time) d

unfoldable pub close_dumper : Message Record → ℕ → Files → Option Files
close_dumper message time d = write_next message (bare_record dumper_close time) d
