-- ===== src/Cgatepp/Volumes.antt =====
-- services/cgatepp/src/dumper.cpp, the files: records in volumes of one size, each a memory-mapped
-- file whose first eight bytes hold the position behind its last record. Positions and sizes are
-- written with the most significant byte first, which is what the `hton` of platform/aux gives on
-- either kind of machine. A volume is named by its place in the list, as the program numbers them;
-- `none` is a fault or an exception. Records are of any type, and protobuf is a parameter.
pub mod Layout
pub mod Writing
pub mod Holding
pub mod Reading
pub mod Replay
pub mod Oversize
mod Tests
use itex_demo.Base.Bytes.{read_be, be_bytes, read_at, write_at}
use itex_demo.Base.{
  zero, ◌>>=◌, [], ◌+◌, ◌++◌, ◌-◌, replicate, suc, ◌==◌, ◌^◌, ◌≡◌, ltb, get_elem?, length, set, ◌%◌,
  ◌∷◌, Bool, none, if◌then◌else◌, some, Option, ℕ, List,
}

-- What the program uses of a protobuf message: `ByteSize`, `SerializeToArray` into so many bytes,
-- `ParseFromArray`.
pub record Message (R : Type 0) : Type 0 where
  pub byte_size : R → ℕ
  pub serialize_to_array : R → ℕ → List ℕ
  pub parse_from_array : List ℕ → R
  pub length-serialize : (r : R) → length (serialize_to_array r (byte_size r)) ≡ byte_size r
  pub parse-serialize : (r : R) → parse_from_array (serialize_to_array r (byte_size r)) ≡ r

-- `enum class Dumper::State`
pub data State : Type 0 where
  dumping replaying : State

-- The members of `class Dumper` that concern its files.
pub record Files : Type 0 where
  pub file_size : ℕ
  pub volumes : List (List ℕ)
  pub current_id : ℕ
  pub state : State

-- `data_`, the mapped bytes of the current volume.
unfoldable pub mapped : Files → Option (List ℕ)
mapped d = get_elem? d.volumes d.current_id

unfoldable pub store : List ℕ → Files → Files
store bytes d = record d { volumes = set d.volumes d.current_id bytes }

unfoldable pub get_pos : Files → Option ℕ
get_pos d = do bytes ← mapped d; field ← read_at 0 8 bytes; some (read_be 0 field)

-- Some bytes written to the mapped file.
unfoldable pub write_bytes : ℕ → List ℕ → Files → Option Files
write_bytes pos ys d = do bytes ← mapped d; changed ← write_at pos ys bytes; some (store changed d)

unfoldable pub set_pos : ℕ → Files → Option Files
set_pos pos d = write_bytes 0 (be_bytes 8 pos) d

-- A volume opened under its number; with a size it is made anew, full of zeros.
unfoldable pub open_volume : ℕ → ℕ → Files → Option Files
open_volume id new_file_size d =
    if new_file_size == 0
    then (if ltb id (length d.volumes) then some (record d { current_id = id }) else none)
    else if ltb id (length d.volumes)
    then some (record d { current_id = id; volumes = set d.volumes id (replicate new_file_size 0) })
    else if id == length d.volumes
    then some
        (record d { current_id = id; volumes = d.volumes ++ (replicate new_file_size 0 ∷ []) })
    else none

-- The end of `open_file_and_get_pos`; the constructor ends its opening in the same way.
unfoldable pub init_pos : Files → Option (Files × ℕ)
init_pos d = do
  pos ← get_pos d
  d' ← if pos == 0 then set_pos (pos + 8) d else some d
  pos' ← get_pos d'
  some (d', pos')

unfoldable pub pos_by_state : State → Files → Option (Files × ℕ)
pos_by_state replaying d = some (d, 8)
pos_by_state dumping d = init_pos d

unfoldable pub open_file_and_get_pos : ℕ → ℕ → Files → Option (Files × ℕ)
open_file_and_get_pos id new_file_size d = do
  d' ← open_volume id new_file_size d
  pos_by_state d'.state d'

module _ {R : Type 0} (message : Message R) where
  open message use {byte_size, serialize_to_array, parse_from_array}

  -- `write_next` from the record's size on, at `pos`.
  unfoldable pub write_record : R → ℕ → ℕ → Files → Option Files
  write_record r size pos d = do
    d₁ ← write_bytes pos (be_bytes 2 size) d
    d₂ ← write_bytes (pos + 2) (serialize_to_array r size) d₁
    set_pos (pos + 2 + size) d₂

  -- `write_next`; the size is kept in sixteen bits.
  unfoldable pub write_next : R → Files → Option Files
  write_next r d =
      let size = byte_size r % 2 ^ 16 in
      do
        pos ← get_pos d
        (d', pos') ←
            if ltb d.file_size (pos + 2 + size)
            then open_file_and_get_pos (d.current_id + 1) d.file_size d
            else some (d, pos)
        write_record r size pos' d'

-- Whether `pos` lies beyond the volume's position.
unfoldable pub beyond : ℕ → Files → Option Bool
beyond pos d = do end ← get_pos d; some (ltb end pos)

-- The next volume and the position in it, or no position where there is no next volume.
unfoldable pub next_volume : Files → Option (Files × Option ℕ)
next_volume d =
    if ltb (length d.volumes - 1) (d.current_id + 1)
    then some (d, none)
    else do (d', pos) ← open_file_and_get_pos (d.current_id + 1) 0 d; some (d', some pos)

-- A record's size, read at `pos`.
unfoldable pub read_size : ℕ → Files → Option ℕ
read_size pos d = do bytes ← mapped d; field ← read_at pos 2 bytes; some (read_be 0 field)

module _ {R : Type 0} (message : Message R) where
  open message use {parse_from_array}

  -- The record's bytes, and the position behind them.
  unfoldable pub read_record : ℕ → ℕ → Files → Option (Files × Option (R × ℕ))
  read_record pos size d = do
    bytes ← mapped d
    field ← read_at pos size bytes
    some (d, some (parse_from_array field, pos + size))

  -- A record whose volume ends before it does is looked for in the next one.
  unfoldable pub read_again : Files × Option ℕ → Option (Files × Option (R × ℕ))
  read_again (d, none) = some (d, none)
  read_again (d, some pos) = do size ← read_size pos d; read_record (pos + 2) size d

  unfoldable pub read_sized : Files × Option ℕ → Option (Files × Option (R × ℕ))
  read_sized (d, none) = some (d, none)
  read_sized (d, some pos) = do
    size ← read_size pos d
    past ← beyond (pos + 2 + size) d
    if past then (next_volume d >>= read_again) else read_record (pos + 2) size d

  -- `read_next`: the record at `pos`, or none after the last one.
  unfoldable pub read_next : ℕ → Files → Option (Files × Option (R × ℕ))
  read_next pos d = do
    past ← beyond (pos + 2) d
    at ← if past then next_volume d else some (d, some pos)
    read_sized at

  -- The loop of `replay_recorded_stream`, without what it makes of each record.
  unfoldable pub read_all : ℕ → ℕ → Files → Option (Files × List R)
  read_all zero pos d = none
  read_all (suc fuel) pos d = do
    (d', found) ← read_next pos d
    elim found [
      | none ↦ some (d', [])
      | some (r, pos') ↦ do (d'', rs) ← read_all fuel pos' d'; some (d'', r ∷ rs)
    ]

  unfoldable pub replay : ℕ → Files → Option (Files × List R)
  replay fuel d = do
    (d', pos) ← open_file_and_get_pos 0 0 (record d { state = replaying })
    (d'', rs) ← read_all fuel pos d'
    some (record d'' { state = dumping }, rs)

  -- `write_next` of several records.
  unfoldable pub write_all : List R → Files → Option Files
  write_all [] d = some d
  write_all (r ∷ rs) d = do d' ← write_next message r d; write_all rs d'

-- The constructor's opening of the last volume that is there, whose size has to be the one asked
-- for, or of a first one.
unfoldable pub open_last : ℕ → List (List ℕ) → Option Files
open_last file_size [] =
    let none_yet : Files = record {
      file_size = file_size;
      volumes = [];
      current_id = 0;
      state = dumping;
    } in
    open_volume 0 file_size none_yet
open_last file_size (v ∷ vs) =
    let last : Files = record {
      file_size = file_size;
      volumes = v ∷ vs;
      current_id = length vs;
      state = dumping;
    } in
    do bytes ← mapped last; if length bytes == file_size then some last else none

-- `Dumper::Dumper` up to its first record.
unfoldable pub open_files : ℕ → List (List ℕ) → Option Files
open_files file_size volumes = do d ← open_last file_size volumes; (d', pos) ← init_pos d; some d'
