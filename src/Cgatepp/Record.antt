-- ===== src/Cgatepp/Record.antt =====
-- services/cgatepp/src/dumper.proto: what the recorder writes, and the getters of a `oneof`,
-- which give an empty message where another member is set.
use itex_demo.Base.{[], List, ℕ}

-- `message StreamData`
pub record StreamData : Type 0 where
  pub data_bytes : List ℕ
  pub msg_index : ℕ
  pub msg_id : ℕ
  pub msg_name : List ℕ
  pub rev : ℕ
  pub num_nulls : ℕ
  pub nulls : List ℕ

-- `message ClearDeleted`
pub record ClearDeleted : Type 0 where
  pub table_idx : ℕ
  pub table_rev : ℕ

-- `message MsgData`
pub record MsgData : Type 0 where
  pub data_bytes : List ℕ
  pub msg_index : ℕ
  pub msg_id : ℕ
  pub msg_name : List ℕ
  pub user_id : ℕ
  pub addr : List ℕ

-- `message GeneralMsg`
pub record GeneralMsg : Type 0 where
  pub type : ℕ
  pub data_bytes : List ℕ

-- `enum Record.Type`
pub data RecordType : Type 0 where
  listener_open listener_close transaction_begin transaction_commit : RecordType
  stream_data repl_online repl_lifenum repl_cleardeleted repl_replstate : RecordType
  mq_reply mq_timeout unknown_msg_type dumper_open dumper_close : RecordType

-- `oneof P2Message`
pub data P2Message : Type 0 where
  not_set : P2Message
  set_stream_data : StreamData → P2Message
  set_repl_lifenum : ℕ → P2Message
  set_repl_cleardeleted : ClearDeleted → P2Message
  set_repl_replstate : List ℕ → P2Message
  set_mq_reply set_mq_timeout : MsgData → P2Message
  set_unknown_msg : GeneralMsg → P2Message

-- `message Record`
pub record Record : Type 0 where
  pub record_type : RecordType
  pub timestamp : ℕ
  pub p2_message : P2Message

abbrev empty_data : MsgData
empty_data = record {
  data_bytes = [];
  msg_index = 0;
  msg_id = 0;
  msg_name = [];
  user_id = 0;
  addr = [];
}

-- The getters.
unfoldable pub get_stream_data : P2Message → StreamData
get_stream_data (set_stream_data m) = m
get_stream_data _ = record {
  data_bytes = [];
  msg_index = 0;
  msg_id = 0;
  msg_name = [];
  rev = 0;
  num_nulls = 0;
  nulls = [];
}

unfoldable pub get_repl_lifenum : P2Message → ℕ
get_repl_lifenum (set_repl_lifenum n) = n
get_repl_lifenum _ = 0

unfoldable pub get_repl_cleardeleted : P2Message → ClearDeleted
get_repl_cleardeleted (set_repl_cleardeleted m) = m
get_repl_cleardeleted _ = record { table_idx = 0; table_rev = 0 }

unfoldable pub get_repl_replstate : P2Message → List ℕ
get_repl_replstate (set_repl_replstate s) = s
get_repl_replstate _ = []

unfoldable pub get_mq_reply : P2Message → MsgData
get_mq_reply (set_mq_reply m) = m
get_mq_reply _ = empty_data

unfoldable pub get_mq_timeout : P2Message → MsgData
get_mq_timeout (set_mq_timeout m) = m
get_mq_timeout _ = empty_data

unfoldable pub get_unknown_msg : P2Message → GeneralMsg
get_unknown_msg (set_unknown_msg m) = m
get_unknown_msg _ = record { type = 0; data_bytes = [] }
