-- ===== src/Cgatepp/Volumes/Tests.antt =====
-- Witnesses and tests of the volumes, with lists of bytes as records.
use itex_demo.Cgatepp.Volumes.Replay.{replay-write_all}
use itex_demo.Cgatepp.Volumes.Oversize.{write_next-oversized}
use itex_demo.Cgatepp.Volumes.Holding.{open_files-Holds}
use itex_demo.Cgatepp.Volumes.{replay, write_all, open_files, Files, Message, write_next}
use itex_demo.Base.{leb, if◌then◌else◌, none, some, arith, ◌≡◌, ◌>>=◌, ap, [], length, ◌∷◌, ℕ, List}

-- Records that are their own bytes.
write_whole : List ℕ → ℕ → List ℕ
write_whole r n = if leb (length r) n then r else []

write_whole_lem : (r : List ℕ) → write_whole r (length r) ≡ r
unfolding write_whole
write_whole_lem r = ground arith

abbrev plain : Message (List ℕ)
unfolding write_whole
plain = record {
  byte_size = length;
  serialize_to_array = write_whole;
  parse_from_array = λ bytes. bytes;
  length-serialize = λ r. ap length (write_whole_lem r);
  parse-serialize = write_whole_lem;
}

-- Three records; with its length each takes five bytes, so a volume of 18 bytes, eight of them
-- the position, holds two.
abbrev three_records : List (List ℕ)
three_records = (1 ∷ 2 ∷ 3 ∷ []) ∷ (4 ∷ 5 ∷ 6 ∷ []) ∷ (7 ∷ 8 ∷ 9 ∷ []) ∷ []

replay-write_all_example :
    (d : Files) × ((open_files 18 [] >>= write_all plain three_records) ≡ some d)
    × (replay plain 4 d ≡ some (d, three_records))
unfolding plain
replay-write_all_example =
    replay-write_all plain 18 4 three_records (omega arith) (omega arith) (omega arith)
      (omega arith)

write_next-oversized_example :
    write_next plain (1 ∷ 2 ∷ 3 ∷ []) (open_files-Holds plain 12 (omega arith)).0 ≡ none
unfolding plain
write_next-oversized_example =
    write_next-oversized plain 12 (1 ∷ 2 ∷ 3 ∷ []) [] (open_files-Holds plain 12 (omega arith)).0
      (omega arith) (omega arith) (omega arith) (omega arith)
      (open_files-Holds plain 12 (omega arith)).2
