-- ===== src/Cgatepp/Volumes/Reading.antt =====
-- What `read_next` gives at a position between two records, at the end of a volume and at the end.
use itex_demo.Base.Bytes.{read_be-be_bytes}
use itex_demo.Cgatepp.Volumes.Layout.{
  get_pos-volume_of, frames-le, length-frames_snoc, read_at-body, read_at-size, body, mapped-files,
  frames, files, volume_of,
}
use itex_demo.Base.{
  append_assoc, sym, ◌-◌, refl, length-append, none, arith, ltb, true, false, ap, ◌≤◌, [], some,
  ◌≡◌, ◌∷◌, length, ◌++◌, ◌+◌, ◌^◌, ◌<◌,
}
use itex_demo.Cgatepp.Volumes.{
  pos_by_state, open_volume, replaying, open_file_and_get_pos, next_volume, read_sized, read_next,
  beyond, read_size, Files, read_record, List, State, ℕ, Message,
}

module _ {R : Type 0} (message : Message R) (file_size : ℕ) (state : State) where
  open message use {byte_size, parse_from_array, length-serialize, parse-serialize}

  -- A record read where it stands.
  module _ (before : List (List ℕ)) (after : List (List ℕ)) (done : List R) (r : R) (rest : List R)
      (free : List ℕ) (small : byte_size r < 2 ^ 16) where
    abbrev here : Files
    here = files file_size before (volume_of message (done ++ (r ∷ rest), free)) after state

    read_size-here : read_size (8 + length (frames message done)) here ≡ some (byte_size r)
    unfolding read_size
    read_size-here =
        rw
          (mapped-files file_size before after state (volume_of message (done ++ (r ∷ rest), free)))
          (rw (read_at-size message done r rest free)
            (ap some (read_be-be_bytes 2 (byte_size r) small)))

    read_record-here :
        read_record message (8 + length (frames message done) + 2) (byte_size r) here
        ≡ some (here, some (r, 8 + length (frames message (done ++ (r ∷ [])))))
    unfolding read_record body
    read_record-here =
        rw
          (mapped-files file_size before after state (volume_of message (done ++ (r ∷ rest), free)))
          (rw (read_at-body message done r rest free)
            (rw (parse-serialize r, length-frames_snoc message done r) refl))

    -- What is read does not lie beyond the volume's position.
    module _ (sized : 8 + length (frames message (done ++ (r ∷ rest))) < 2 ^ 64) where
      beyond-here :
          (p : ℕ)
          → p ≤ 8 + length (frames message done) + 2 + byte_size r
          → beyond p here ≡ some false
      unfolding beyond
      beyond-here p h =
          let end = 8 + length (frames message (done ++ (r ∷ rest))) in
          let within : ltb end p ≡ false = ground (arith, frames-le message done r rest) in
          rw
            (get_pos-volume_of message file_size before after state (done ++ (r ∷ rest)) free sized)
            (ap some within)

      pub read_sized-here :
          read_sized message (here, some (8 + length (frames message done)))
          ≡ some (here, some (r, 8 + length (frames message (done ++ (r ∷ [])))))
      unfolding read_sized
      read_sized-here =
          rw
            (
              read_size-here,
              beyond-here (8 + length (frames message done) + 2 + byte_size r) (omega arith),
            )
            read_record-here

      pub read_next-here :
          read_next message (8 + length (frames message done)) here
          ≡ some (here, some (r, 8 + length (frames message (done ++ (r ∷ [])))))
      unfolding read_next
      read_next-here =
          rw (beyond-here (8 + length (frames message done) + 2) (omega arith)) read_sized-here

module _ (file_size : ℕ) (before : List (List ℕ)) (v : List ℕ) where
  -- After the last volume comes none.
  next_volume-last :
      (state : State)
      → next_volume (files file_size before v [] state)
        ≡ some (files file_size before v [] state, none)
  unfolding next_volume
  next_volume-last state =
      let count : length (before ++ (v ∷ [])) ≡ length before + 1 = length-append before (v ∷ []) in
      let at_end : ltb (length before + 1 - 1) (length before + 1) ≡ true = ground arith in
      rw (count, at_end) refl

  next_volume-more :
      (w : List ℕ) (after : List (List ℕ))
      → next_volume (files file_size before v (w ∷ after) replaying)
        ≡ some (files file_size (before ++ (v ∷ [])) w after replaying, some 8)
  unfolding next_volume open_file_and_get_pos open_volume pos_by_state
  next_volume-more w after =
      let count : length (before ++ (v ∷ w ∷ after)) ≡ length before + (2 + length after) =
        omega (arith, length-append before (v ∷ w ∷ after)) in
      let not_last : ltb (length before + (2 + length after) - 1) (length before + 1) ≡ false =
        ground arith in
      let there : ltb (length before + 1) (length before + (2 + length after)) ≡ true =
        ground arith in
      let number : length before + 1 ≡ length (before ++ (v ∷ [])) =
        sym (length-append before (v ∷ [])) in
      rw (count, not_last, there) (rw (append_assoc before (v ∷ []) (w ∷ after), number) refl)

module _ {R : Type 0} (message : Message R) (file_size : ℕ) where
  open message use {byte_size}

  module _ (before : List (List ℕ)) (done : List R) (free : List ℕ)
      (sized : 8 + length (frames message done) < 2 ^ 64) where
    beyond-end :
        (after : List (List ℕ)) (state : State)
        → beyond
            (8 + length (frames message done) + 2)
            (files file_size before (volume_of message (done, free)) after state)
          ≡ some true
    unfolding beyond
    beyond-end after state =
        let end = 8 + length (frames message done) in
        let past : ltb end (end + 2) ≡ true = ground arith in
        rw (get_pos-volume_of message file_size before after state done free sized) (ap some past)

    pub read_next-last :
        (state : State)
        → read_next message
            (8 + length (frames message done))
            (files file_size before (volume_of message (done, free)) [] state)
          ≡ some (files file_size before (volume_of message (done, free)) [] state, none)
    unfolding read_next read_sized
    read_next-last state =
        rw
          (
            beyond-end [] state,
            next_volume-last file_size before (volume_of message (done, free)) state,
          )
          refl

    -- The record behind the last one of a volume is the first one of the next.
    pub read_next-more :
        (r : R) (rest : List R) (free' : List ℕ) (after : List (List ℕ))
        → byte_size r < 2 ^ 16
        → 8 + length (frames message (r ∷ rest)) < 2 ^ 64
        → read_next message (8 + length (frames message done)) (
            files file_size before
              (volume_of message (done, free))
              (volume_of message (r ∷ rest, free') ∷ after)
              replaying)
          ≡ some (
            files file_size
                (before ++ (volume_of message (done, free) ∷ []))
                (volume_of message (r ∷ rest, free'))
                after
                replaying,
            some (r, 8 + length (frames message (r ∷ []))),
          )
    unfolding read_next frames
    read_next-more r rest free' after small sized' =
        rw (beyond-end (volume_of message (r ∷ rest, free') ∷ after) replaying) (
          rw
            (next_volume-more file_size before (volume_of message (done, free))
              (volume_of message (r ∷ rest, free')) after)
            (read_sized-here message file_size replaying
              (before ++ (volume_of message (done, free) ∷ [])) after [] r rest free' small sized'))
