-- ===== src/Cgatepp/Listener.antt =====
-- services/cgatepp/include/cgatepp/listener.hpp: the calls that a handler gets, with the messages of
-- the exchange library that they carry. A buffer is the bytes that its pointer leads to, a C string
-- the bytes before its end. Integers keep their widths on the way, so they are plain numbers here,
-- a signed one the number with its bits.
use itex_demo.Base.{List, Option, ℕ}

-- `cg_msg_streamdata_t`
pub record StreamMsg : Type 0 where
  pub type : ℕ
  pub data_size : ℕ
  pub data_bytes : List ℕ
  pub msg_index : ℕ
  pub msg_id : ℕ
  pub msg_name : List ℕ
  pub rev : ℕ
  pub num_nulls : ℕ
  pub nulls : List ℕ

-- `cg_msg_data_t`; `ref_msg` is a pointer, which may be null.
pub record DataMsg : Type 0 where
  pub type : ℕ
  pub data_size : ℕ
  pub data_bytes : List ℕ
  pub msg_index : ℕ
  pub msg_id : ℕ
  pub msg_name : List ℕ
  pub user_id : ℕ
  pub addr : List ℕ
  pub ref_msg : Option ℕ

-- `cg_msg_t`
pub record Msg : Type 0 where
  pub type : ℕ
  pub data_size : ℕ
  pub data_bytes : List ℕ

-- `cg_data_cleardeleted_t`
pub record ClearDeletedMsg : Type 0 where
  pub table_idx : ℕ
  pub table_rev : ℕ

-- A call of a method of `Listener::IHandler`.
pub data Call : Type 0 where
  call_listener_open call_listener_close call_transaction_begin call_transaction_commit : Call
  call_stream_data : StreamMsg → Call
  call_repl_online : Call
  call_repl_lifenum : ℕ → Call
  call_repl_cleardeleted : ClearDeletedMsg → Call
  call_repl_replstate : List ℕ → Call
  call_mq_reply call_mq_timeout : DataMsg → Call
  call_unknown_msg_type : Msg → Call
