-- ===== src/Cgatepp/Volumes/Oversize.antt =====
-- A record for which no volume has room.
use itex_demo.Cgatepp.Volumes.Writing.{open_new}
use itex_demo.Base.Bytes.{length-be_bytes, be_bytes, write_at}
use itex_demo.Cgatepp.Volumes.Holding.{Holds}
use itex_demo.Base.{
  length-drop, length-append, length-take, drop, take, ◌∷◌, take-append-drop, true, ◌>>=◌, refl,
  ltb, ◌++◌, arith, subst, ◌%◌, length-replicate, false, map, leb, length, none, ◌≡◌, ◌-◌,
  replicate, [], ◌^◌, ◌+◌, ◌≤◌, ◌<◌,
}
use itex_demo.Cgatepp.Volumes.Layout.{
  write_bytes-behind, get_pos-volume_of, mapped-files, files, frames, volume_of,
}
use itex_demo.Cgatepp.Volumes.{
  set_pos, State, dumping, Files, List, write_record, write_next, ℕ, write_at, Message, write_bytes,
}

write_bytes-beyond :
    (file_size : ℕ) (older : List (List ℕ)) (v : List ℕ) (newer : List (List ℕ)) (state : State)
    (p : ℕ) (ys : List ℕ)
    → length v < p + length ys
    → write_bytes p ys (files file_size older v newer state) ≡ none
unfolding write_bytes write_at
write_bytes-beyond file_size older v newer state p ys h =
    let outside_it : leb (p + length ys) (length v) ≡ false = ground arith in
    rw (mapped-files file_size older newer state v) (rw outside_it refl)

module _ {R : Type 0} (message : Message R) (file_size : ℕ) where
  open message use {byte_size, length-serialize, serialize_to_array}

  write_record-beyond :
      (older : List (List ℕ)) (r : R)
      → 10 ≤ file_size
      → file_size < 10 + byte_size r
      → write_record message r
          (byte_size r)
          8
          (files file_size older (volume_of message ([], replicate (file_size - 8) 0)) [] dumping)
        ≡ none
  unfolding write_record volume_of frames
  write_record-beyond older r room h =
      let size = be_bytes 2 (byte_size r) in
      let blank : List ℕ = replicate (file_size - 8) 0 in
      let two : length size ≡ 2 = length-be_bytes 2 (byte_size r) in
      let count : length blank ≡ file_size - 8 = length-replicate {A = ℕ} (file_size - 8) 0 in
      subst
        (λ t.
          (write_bytes 8 size (files file_size older (be_bytes 8 8 ++ t) [] dumping) >>= λ d₁.
          write_bytes 10 (serialize_to_array r (byte_size r)) d₁ >>= λ d₂.
          set_pos (10 + byte_size r) d₂)
          ≡ none)
        (take-append-drop 2 blank)
        (rw
          (write_bytes-behind file_size older [] dumping 8 size (be_bytes 8 8) [] (take 2 blank)
            (drop 2 blank) (omega (arith, length-be_bytes 8 8))
            (omega (arith, length-take 2 blank, two, count)))
          (rw
            (write_bytes-beyond file_size older (be_bytes 8 8 ++ (size ++ drop 2 blank)) [] dumping
              10 (serialize_to_array r (byte_size r))
              (omega (
                arith,
                length-append (be_bytes 8 8) (size ++ drop 2 blank),
                length-be_bytes 8 8,
                length-append size (drop 2 blank),
                two,
                length-drop 2 blank,
                count,
                length-serialize r,
              )))
            refl))

  -- The defect of `write_next`: it opens a new volume for a record that does not fit behind the
  -- others, and writes it there without asking whether it fits at all. A record that an empty volume
  -- has no room for is written beyond the mapped file. The record has at most 65535 bytes.
  pub write_next-oversized :
      (r : R) (rss : List R) (d : Files)
      → file_size < 2 ^ 64
      → 10 ≤ file_size
      → byte_size r < 2 ^ 16
      → file_size < 10 + byte_size r
      → Holds message file_size rss d
      → write_next message r d ≡ none
  unfolding write_next
  write_next-oversized r rss d limit room small big h =
      let end = 8 + length (frames message h.last) in
      let older = map (volume_of message) h.full in
      let v = volume_of message (h.last, h.free) in
      let whole : byte_size r % 2 ^ 16 ≡ byte_size r = omega arith in
      let test : ltb file_size (end + 2 + byte_size r) ≡ true = ground arith in
      rw h.shape (
        rw
          (get_pos-volume_of message file_size older [] dumping h.last h.free
            (omega (arith, h.room)))
          (rw (whole, test)
            (rw (open_new message file_size older v (omega arith))
              (write_record-beyond (older ++ (v ∷ [])) r room big))))
