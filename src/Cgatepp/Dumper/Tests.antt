-- ===== src/Cgatepp/Dumper/Tests.antt =====
-- Witnesses and tests of the recorder. Its records are written as lists of numbers: the fields in
-- order, those of a variable length last, after their lengths.
use itex_demo.Cgatepp.Dumper.Replayed.{
  replay_recorded_stream-handle_all, replayed, calls_of, record_of,
}
use itex_demo.Cgatepp.Dumper.{
  replay_recorded_stream, handle_all, set_unknown_msg, set_mq_timeout, open_dumper, set_mq_reply,
  call_listener_close, set_repl_replstate, Files, set_repl_cleardeleted, call_mq_timeout, not_set,
  set_repl_lifenum, call_stream_data, msg_data, dumper_close, call_listener_open, set_stream_data,
  stream_data_record, bare_record, MsgTypes,
}
use itex_demo.Base.{
  Option, get_elem?, arith, map, some, true, ◌>>=◌, none, refl, ◌∙◌, [], ap, ◌∷◌, drop, take, ◌++◌,
  ◌≡◌, List, ℕ, length,
}
use itex_demo.Cgatepp.Record.{
  dumper_open, unknown_msg_type, mq_timeout, mq_reply, repl_replstate, repl_cleardeleted,
  repl_lifenum, repl_online, stream_data, transaction_commit, transaction_begin, listener_close,
  listener_open, Record, P2Message, RecordType, MsgData,
}
use itex_demo.Cgatepp.Listener.{Call}
use itex_demo.Cgatepp.Volumes.{Message}

or_else : {A : Type 0} → A → Option A → A
or_else x none = x
or_else x (some y) = y

type_code : RecordType → ℕ
type_code listener_open = 0
type_code listener_close = 1
type_code transaction_begin = 2
type_code transaction_commit = 3
type_code stream_data = 4
type_code repl_online = 5
type_code repl_lifenum = 6
type_code repl_cleardeleted = 7
type_code repl_replstate = 8
type_code mq_reply = 9
type_code mq_timeout = 10
type_code unknown_msg_type = 11
type_code dumper_open = 12
type_code dumper_close = 13

code_type : ℕ → RecordType
code_type n = or_else dumper_close (
    get_elem?
      (listener_open ∷ listener_close ∷ transaction_begin ∷ transaction_commit ∷ stream_data
        ∷ repl_online ∷ repl_lifenum ∷ repl_cleardeleted ∷ repl_replstate ∷ mq_reply ∷ mq_timeout
        ∷ unknown_msg_type ∷ dumper_open ∷ dumper_close ∷ [])
      n)

code_type-type_code : (t : RecordType) → code_type (type_code t) ≡ t
unfolding code_type type_code or_else
code_type-type_code listener_open = refl
code_type-type_code listener_close = refl
code_type-type_code transaction_begin = refl
code_type-type_code transaction_commit = refl
code_type-type_code stream_data = refl
code_type-type_code repl_online = refl
code_type-type_code repl_lifenum = refl
code_type-type_code repl_cleardeleted = refl
code_type-type_code repl_replstate = refl
code_type-type_code mq_reply = refl
code_type-type_code mq_timeout = refl
code_type-type_code unknown_msg_type = refl
code_type-type_code dumper_open = refl
code_type-type_code dumper_close = refl

-- Three texts of which the first two have their lengths in front.
join3 : List ℕ → List ℕ → List ℕ → List ℕ
join3 xs ys zs = length xs ∷ length ys ∷ (xs ++ (ys ++ zs))

first3 : List ℕ → List ℕ
first3 (m ∷ n ∷ rest) = take m rest
first3 _ = []

second3 : List ℕ → List ℕ
second3 (m ∷ n ∷ rest) = take n (drop m rest)
second3 _ = []

third3 : List ℕ → List ℕ
third3 (m ∷ n ∷ rest) = drop n (drop m rest)
third3 _ = []

take-length_append : (xs ys : List ℕ) → take (length xs) (xs ++ ys) ≡ xs
take-length_append [] ys = refl
take-length_append (x ∷ xs) ys = ap (λ zs. x ∷ zs) (take-length_append xs ys)

drop-length_append : (xs ys : List ℕ) → drop (length xs) (xs ++ ys) ≡ ys
drop-length_append [] ys = refl
drop-length_append (x ∷ xs) ys = drop-length_append xs ys

first3-join3 : (xs ys zs : List ℕ) → first3 (join3 xs ys zs) ≡ xs
unfolding first3 join3
first3-join3 xs ys zs = take-length_append xs (ys ++ zs)

second3-join3 : (xs ys zs : List ℕ) → second3 (join3 xs ys zs) ≡ ys
unfolding second3 join3
second3-join3 xs ys zs = rw (drop-length_append xs (ys ++ zs)) (take-length_append ys zs)

third3-join3 : (xs ys zs : List ℕ) → third3 (join3 xs ys zs) ≡ zs
unfolding third3 join3
third3-join3 xs ys zs = rw (drop-length_append xs (ys ++ zs)) (drop-length_append ys zs)

encode_data : MsgData → List ℕ
encode_data m = m.msg_index ∷ m.msg_id ∷ m.user_id ∷ join3 m.data_bytes m.msg_name m.addr

decode_data : ℕ → ℕ → ℕ → List ℕ → MsgData
decode_data msg_index msg_id user_id rest = record {
  data_bytes = first3 rest;
  msg_index = msg_index;
  msg_id = msg_id;
  msg_name = second3 rest;
  user_id = user_id;
  addr = third3 rest;
}

encode_message : P2Message → List ℕ
encode_message not_set = 0 ∷ []
encode_message (set_stream_data m) =
    1 ∷ m.msg_index ∷ m.msg_id ∷ m.rev ∷ m.num_nulls ∷ join3 m.data_bytes m.msg_name m.nulls
encode_message (set_repl_lifenum n) = 2 ∷ n ∷ []
encode_message (set_repl_cleardeleted m) = 3 ∷ m.table_idx ∷ m.table_rev ∷ []
encode_message (set_repl_replstate s) = 4 ∷ s
encode_message (set_mq_reply m) = 5 ∷ encode_data m
encode_message (set_mq_timeout m) = 6 ∷ encode_data m
encode_message (set_unknown_msg m) = 7 ∷ m.type ∷ m.data_bytes

decode_stream_data : List ℕ → P2Message
decode_stream_data (msg_index ∷ msg_id ∷ rev ∷ num_nulls ∷ rest) = set_stream_data (record {
  data_bytes = first3 rest;
  msg_index = msg_index;
  msg_id = msg_id;
  msg_name = second3 rest;
  rev = rev;
  num_nulls = num_nulls;
  nulls = third3 rest;
})
decode_stream_data _ = not_set

decode_lifenum : List ℕ → P2Message
decode_lifenum (n ∷ rest) = set_repl_lifenum n
decode_lifenum _ = not_set

decode_cleardeleted : List ℕ → P2Message
decode_cleardeleted (idx ∷ rev ∷ rest) =
    set_repl_cleardeleted (record { table_idx = idx; table_rev = rev })
decode_cleardeleted _ = not_set

decode_msg_data : (MsgData → P2Message) → List ℕ → P2Message
decode_msg_data set (msg_index ∷ msg_id ∷ user_id ∷ rest) =
    set (decode_data msg_index msg_id user_id rest)
decode_msg_data set _ = not_set

decode_unknown : List ℕ → P2Message
decode_unknown (type ∷ rest) = set_unknown_msg (record { type = type; data_bytes = rest })
decode_unknown _ = not_set

decode_message : List ℕ → P2Message
decode_message [] = not_set
decode_message (t ∷ rest) =
    or_else (λ _. not_set)
      (get_elem?
        ((λ _. not_set)
          ∷ decode_stream_data
          ∷ decode_lifenum
          ∷ decode_cleardeleted
          ∷ set_repl_replstate
          ∷ decode_msg_data set_mq_reply
          ∷ decode_msg_data set_mq_timeout
          ∷ decode_unknown
          ∷ [])
        t)
      rest

decode-encode_data :
    (m : MsgData)
    → decode_data m.msg_index m.msg_id m.user_id (join3 m.data_bytes m.msg_name m.addr) ≡ m
unfolding decode_data
decode-encode_data m =
    rw
      (
        first3-join3 m.data_bytes m.msg_name m.addr,
        second3-join3 m.data_bytes m.msg_name m.addr,
        third3-join3 m.data_bytes m.msg_name m.addr,
      )
      refl

decode-encode_message : (p : P2Message) → decode_message (encode_message p) ≡ p
unfolding decode_message encode_message encode_data or_else decode_stream_data decode_lifenum
    decode_cleardeleted decode_msg_data decode_unknown
decode-encode_message not_set = refl
decode-encode_message (set_stream_data m) =
    rw
      (
        first3-join3 m.data_bytes m.msg_name m.nulls,
        second3-join3 m.data_bytes m.msg_name m.nulls,
        third3-join3 m.data_bytes m.msg_name m.nulls,
      )
      refl
decode-encode_message (set_repl_lifenum n) = refl
decode-encode_message (set_repl_cleardeleted m) = refl
decode-encode_message (set_repl_replstate s) = refl
decode-encode_message (set_mq_reply m) = ap set_mq_reply (decode-encode_data m)
decode-encode_message (set_mq_timeout m) = ap set_mq_timeout (decode-encode_data m)
decode-encode_message (set_unknown_msg m) = refl

encode : Record → List ℕ
encode r = type_code r.record_type ∷ r.timestamp ∷ encode_message r.p2_message

decode : List ℕ → Record
decode (t ∷ time ∷ rest) = record {
  record_type = code_type t;
  timestamp = time;
  p2_message = decode_message rest;
}
decode _ = record { record_type = dumper_close; timestamp = 0; p2_message = not_set }

take-length : (xs : List ℕ) → take (length xs) xs ≡ xs
take-length [] = refl
take-length (x ∷ xs) = ap (λ zs. x ∷ zs) (take-length xs)

decode-encode : (r : Record) → decode (encode r) ≡ r
unfolding decode encode
decode-encode r = rw (code_type-type_code r.record_type, decode-encode_message r.p2_message) refl

abbrev numbers : Message Record
numbers = record {
  byte_size = λ r. length (encode r);
  serialize_to_array = λ r n. take n (encode r);
  parse_from_array = decode;
  length-serialize = λ r. ap length (take-length (encode r));
  parse-serialize = λ r. ap decode (take-length (encode r)) ∙ decode-encode r;
}

-- An opening, a data message, a timeout with the number of its own type, and the end.
abbrev events : List (ℕ × Call)
events =
    (1, call_listener_open)
    ∷ (
      2,
      call_stream_data (record {
        type = 5;
        data_size = 2;
        data_bytes = 1 ∷ 2 ∷ [];
        msg_index = 3;
        msg_id = 4;
        msg_name = 65 ∷ [];
        rev = 9;
        num_nulls = 1;
        nulls = 0 ∷ [];
      }),
    )
    ∷ (
      3,
      call_mq_timeout (record {
        type = 7;
        data_size = 0;
        data_bytes = [];
        msg_index = 3;
        msg_id = 4;
        msg_name = 65 ∷ [];
        user_id = 1;
        addr = [];
        ref_msg = none;
      }),
    )
    ∷ (4, call_listener_close)
    ∷ []

abbrev types : MsgTypes
types = record { cg_msg_stream_data = 5; cg_msg_data = 6 }

replay_recorded_stream-handle_all_example :
    (d : Files) × ((open_dumper numbers 0 40 [] >>= handle_all numbers true events)
      ≡ some (d, calls_of events))
    × (replay_recorded_stream numbers true types 6 d
        ≡ some (d, map (replayed types) (calls_of events)))
unfolding bare_record stream_data_record msg_data record_of encode encode_message encode_data join3
    type_code
replay_recorded_stream-handle_all_example =
    replay_recorded_stream-handle_all numbers types 40 6 0 events (omega arith) (omega arith)
      (omega arith) (tt, ((refl, refl), (refl, (tt, tt)))) (omega arith)
