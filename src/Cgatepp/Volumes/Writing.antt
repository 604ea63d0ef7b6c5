-- ===== src/Cgatepp/Volumes/Writing.antt =====
-- What `write_next` makes of the volumes: it adds to the last one, or begins another.
use itex_demo.Cgatepp.Volumes.Layout.{
  write_record-fits, get_pos-volume_of, set_pos-files, get_pos-files, files, frames, volume_of,
}
use itex_demo.Base.{
  ◌≢◌, length-replicate, ◌%◌, refl, true, ltb, false, ◌==◌, drop, length-append, ◌∷◌, replicate-add,
  subst, some, [], arith, ◌-◌, ◌+◌, ◌++◌, length, ◌^◌, ◌≡◌, replicate, ◌<◌, ◌≤◌,
}
use itex_demo.Cgatepp.Volumes.{
  pos_by_state, open_file_and_get_pos, dumping, write_next, State, List, ℕ, init_pos, open_volume,
  Message,
}
use itex_demo.Base.Bytes.{be_bytes}

-- The records in a list of volumes, and that each volume has one.
unfoldable pub records_of {ℓ κ} : {R : Type ℓ} {F : Type κ} → List (List R × F) → List R
records_of [] = []
records_of ((rs, free) ∷ vs) = rs ++ records_of vs

abbrev pub AllFilled : {R F : Type 0} → List (List R × F) → Type 0
AllFilled [] = Unit
AllFilled ((rs, free) ∷ vs) = (rs ≢ []) × AllFilled vs

pub open_volume-first :
    (file_size : ℕ)
    → 0 < file_size
    → open_volume 0 file_size
        (record { file_size = file_size; volumes = []; current_id = 0; state = dumping })
      ≡ some (files file_size [] (replicate file_size 0) [] dumping)
unfolding open_volume
open_volume-first file_size h = let sized : (file_size == 0) ≡ false = ground arith in rw sized refl

open_volume-new :
    (file_size : ℕ) (older : List (List ℕ)) (v : List ℕ) (state : State)
    → 0 < file_size
    → open_volume (length older + 1) file_size (files file_size older v [] state)
      ≡ some (files file_size (older ++ (v ∷ [])) (replicate file_size 0) [] state)
unfolding open_volume
open_volume-new file_size older v state h =
    let one_more : length (older ++ (v ∷ [])) ≡ length older + 1 = length-append older (v ∷ []) in
    let sized : (file_size == 0) ≡ false = ground arith in
    let beyond_it : ltb (length older + 1) (length older + 1) ≡ false = ground arith in
    let next_one : ((length older + 1) == (length older + 1)) ≡ true = ground arith in
    rw (one_more, sized, beyond_it, next_one) refl

zeros :
    (file_size : ℕ)
    → 8 ≤ file_size
    → replicate file_size 0 ≡ be_bytes 8 0 ++ replicate (file_size - 8) 0
unfolding be_bytes
zeros file_size h =
    let split : 8 + (file_size - 8) ≡ file_size = omega arith in
    subst (λ n. replicate n 0 ≡ be_bytes 8 0 ++ replicate (file_size - 8) 0) split
      (replicate-add 8 (file_size - 8) 0)

module _ {R : Type 0} (message : Message R) where
  open message use {byte_size}

  -- A volume made anew holds no record.
  pub init_pos-new :
      (file_size : ℕ) (older : List (List ℕ))
      → 8 ≤ file_size
      → init_pos (files file_size older (replicate file_size 0) [] dumping)
        ≡ some (
          files file_size older (volume_of message ([], replicate (file_size - 8) 0)) [] dumping,
          8,
        )
  unfolding init_pos volume_of frames
  init_pos-new file_size older h =
      let free : List ℕ = replicate (file_size - 8) 0 in
      let none_used : 0 < 2 ^ 64 = omega arith in
      let some_used : 8 < 2 ^ 64 = omega arith in
      rw (zeros file_size h) (
        rw (get_pos-files file_size older [] dumping 0 free none_used) (
          rw (set_pos-files file_size older [] dumping 8 0 free)
            (rw (get_pos-files file_size older [] dumping 8 free some_used) refl)))

  pub open_new :
      (file_size : ℕ) (older : List (List ℕ)) (v : List ℕ)
      → 8 ≤ file_size
      → open_file_and_get_pos (length older + 1) file_size (files file_size older v [] dumping)
        ≡ some (
          files file_size
              (older ++ (v ∷ []))
              (volume_of message ([], replicate (file_size - 8) 0))
              []
              dumping,
          8,
        )
  unfolding open_file_and_get_pos pos_by_state
  open_new file_size older v h =
      rw (open_volume-new file_size older v dumping (omega arith))
        (init_pos-new file_size (older ++ (v ∷ [])) h)

  module _ (file_size : ℕ) (older : List (List ℕ)) (r : R) (rs : List R) (free : List ℕ)
      (small : byte_size r < 2 ^ 16) (sized : file_size < 2 ^ 64)
      (room : 8 + length (frames message rs) + length free ≡ file_size) where
    -- Where the record fits behind the others it is written there.
    pub write_next-fits :
        8 + length (frames message rs) + 2 + byte_size r ≤ file_size
        → write_next message r (files file_size older (volume_of message (rs, free)) [] dumping)
          ≡ some (
              files file_size older
                (volume_of message (rs ++ (r ∷ []), drop (2 + byte_size r) free))
                []
                dumping)
    unfolding write_next
    write_next-fits fits =
        let end = 8 + length (frames message rs) in
        let whole : byte_size r % 2 ^ 16 ≡ byte_size r = omega arith in
        let test : ltb file_size (end + 2 + byte_size r) ≡ false = ground arith in
        rw (get_pos-volume_of message file_size older [] dumping rs free (omega arith)) (
          rw whole
            (rw test (write_record-fits message file_size older dumping r rs free (omega arith))))

    -- Where it does not, it is the first of a new volume.
    pub write_next-opens :
        file_size < 8 + length (frames message rs) + 2 + byte_size r
        → 10 + byte_size r ≤ file_size
        → write_next message r (files file_size older (volume_of message (rs, free)) [] dumping)
          ≡ some (
              files file_size
                (older ++ (volume_of message (rs, free) ∷ []))
                (volume_of message (r ∷ [], drop (2 + byte_size r) (replicate (file_size - 8) 0)))
                []
                dumping)
    unfolding write_next
    write_next-opens full fits =
        let end = 8 + length (frames message rs) in
        let whole : byte_size r % 2 ^ 16 ≡ byte_size r = omega arith in
        let test : ltb file_size (end + 2 + byte_size r) ≡ true = ground arith in
        let blank : List ℕ = replicate (file_size - 8) 0 in
        rw (get_pos-volume_of message file_size older [] dumping rs free (omega arith)) (
          rw whole (
            rw test (
              rw (open_new file_size older (volume_of message (rs, free)) (omega arith)) (
                unfold frames in
                (write_record-fits message file_size (older ++ (volume_of message (rs, free) ∷ []))
                  dumping r [] blank
                  (omega (arith, length-replicate {A = ℕ} (file_size - 8) 0)))))))
