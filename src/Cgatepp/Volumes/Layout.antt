-- ===== src/Cgatepp/Volumes/Layout.antt =====
-- What a volume's bytes are when it holds some records, and what a write makes of them.
use itex_demo.Base.Bytes.{read_at, read_be-be_bytes, read_at-at, length-be_bytes, write_at-append}
use itex_demo.Cgatepp.Volumes.{
  write_record, Message, store, be_bytes, mapped, write_bytes, set_pos, get_pos, Files, State,
}
use itex_demo.Base.{
  length-drop, length-take, subst, drop-drop, append-nil, take-append-drop, take, length-append,
  drop, arith, ◌≤◌, append_assoc, ◌+◌, ap, sym, refl, ◌∙◌, set-append_length, [],
  get_elem?-append_length, length, some, ◌^◌, ◌∷◌, ◌++◌, ◌<◌, ◌≡◌, List, ℕ,
}

-- Files of which the volume `v` is mapped.
abbrev pub files : ℕ → List (List ℕ) → List ℕ → List (List ℕ) → State → Files
files file_size older v newer state = record {
  file_size = file_size;
  volumes = older ++ (v ∷ newer);
  current_id = length older;
  state = state;
}

module _ (file_size : ℕ) (older newer : List (List ℕ)) (state : State) where
  pub mapped-files : (v : List ℕ) → mapped (files file_size older v newer state) ≡ some v
  unfolding mapped
  mapped-files v = get_elem?-append_length older v newer

  pub write_bytes-files :
      (p : ℕ) (ys xs old zs : List ℕ)
      → p ≡ length xs
      → length old ≡ length ys
      → write_bytes p ys (files file_size older (xs ++ (old ++ zs)) newer state)
        ≡ some (files file_size older (xs ++ (ys ++ zs)) newer state)
  unfolding write_bytes mapped store
  write_bytes-files p ys xs old zs e h =
      rw (get_elem?-append_length older (xs ++ (old ++ zs)) newer) (
        rw (e, write_at-append xs old ys zs h)
          (rw (set-append_length older (xs ++ (old ++ zs)) (xs ++ (ys ++ zs)) newer) refl))

  pub write_bytes-behind :
      (p : ℕ) (ys hs xs old zs : List ℕ)
      → p ≡ length hs + length xs
      → length old ≡ length ys
      → write_bytes p ys (files file_size older (hs ++ (xs ++ (old ++ zs))) newer state)
        ≡ some (files file_size older (hs ++ ((xs ++ ys) ++ zs)) newer state)
  write_bytes-behind p ys hs xs old zs e h = rw (append_assoc xs ys zs) (
      rw (← append_assoc hs xs (old ++ zs), ← append_assoc hs xs (ys ++ zs))
        (write_bytes-files p ys (hs ++ xs) old zs (e ∙ sym (length-append hs xs)) h))

  pub get_pos-files :
      (n : ℕ) (rest : List ℕ)
      → n < 2 ^ 64
      → get_pos (files file_size older (be_bytes 8 n ++ rest) newer state) ≡ some n
  unfolding get_pos mapped
  get_pos-files n rest h = rw (get_elem?-append_length older (be_bytes 8 n ++ rest) newer) (
      rw (read_at-at 0 8 [] (be_bytes 8 n) rest refl (sym (length-be_bytes 8 n)))
        (ap some (read_be-be_bytes 8 n h)))

  pub set_pos-files :
      (m n : ℕ) (rest : List ℕ)
      → set_pos m (files file_size older (be_bytes 8 n ++ rest) newer state)
        ≡ some (files file_size older (be_bytes 8 m ++ rest) newer state)
  unfolding set_pos
  set_pos-files m n rest =
      write_bytes-files 0 (be_bytes 8 m) [] (be_bytes 8 n) rest refl
        (length-be_bytes 8 n ∙ sym (length-be_bytes 8 m))

module _ {R : Type 0} (message : Message R) where
  open message use {
    byte_size, serialize_to_array, parse_from_array, length-serialize, parse-serialize,
  }

  unfoldable pub body : R → List ℕ
  body r = serialize_to_array r (byte_size r)

  -- A record with its size, and several.
  pub frame : R → List ℕ
  frame r = be_bytes 2 (byte_size r) ++ body r

  unfoldable pub frames : List R → List ℕ
  frames [] = []
  frames (r ∷ rs) = frame r ++ frames rs

  -- The bytes of a volume with some records, in front of what is free.
  unfoldable pub volume_of : List R × List ℕ → List ℕ
  volume_of (rs, free) = be_bytes 8 (8 + length (frames rs)) ++ (frames rs ++ free)

  pub length-frame : (r : R) → length (frame r) ≡ 2 + byte_size r
  unfolding frame body
  length-frame r = omega (
    arith,
    length-append (be_bytes 2 (byte_size r)) (serialize_to_array r (byte_size r)),
    length-be_bytes 2 (byte_size r),
    length-serialize r,
  )

  pub frames-append : (rs ss : List R) → frames (rs ++ ss) ≡ frames rs ++ frames ss
  unfolding frames
  frames-append [] ss = refl
  frames-append (r ∷ rs) ss =
      rw (frames-append rs ss) (sym (append_assoc (frame r) (frames rs) (frames ss)))

  frames-snoc :
      (rs : List R) (r : R)
      → frames (rs ++ (r ∷ [])) ≡ (frames rs ++ be_bytes 2 (byte_size r)) ++ body r
  unfolding frames frame
  frames-snoc rs r =
      frames-append rs (r ∷ [])
      ∙ ap (λ t. frames rs ++ t) (append-nil (frame r))
      ∙ sym (append_assoc (frames rs) (be_bytes 2 (byte_size r)) (body r))

  pub length-frames_snoc :
      (rs : List R) (r : R)
      → 8 + length (frames (rs ++ (r ∷ []))) ≡ 8 + length (frames rs) + 2 + byte_size r
  unfolding frames
  length-frames_snoc rs r = rw (frames-append rs (r ∷ [])) (
      omega (
        arith,
        length-append (frames rs) (frames (r ∷ [])),
        length-append (frame r) [],
        length-frame r,
      ))

  module _ (done : List R) (r : R) (rest : List R) (free : List ℕ) where
    abbrev head : List ℕ
    head = be_bytes 8 (8 + length (frames (done ++ (r ∷ rest)))) ++ frames done

    volume_of-size :
        volume_of (done ++ (r ∷ rest), free)
        ≡ head ++ (be_bytes 2 (byte_size r) ++ (body r ++ (frames rest ++ free)))
    unfolding volume_of frames frame
    volume_of-size = rw (frames-append done (r ∷ rest)) (simp append_assoc)

    volume_of-body :
        volume_of (done ++ (r ∷ rest), free)
        ≡ (head ++ be_bytes 2 (byte_size r)) ++ (body r ++ (frames rest ++ free))
    volume_of-body = volume_of-size ∙ sym (append_assoc head (be_bytes 2 (byte_size r)) _)

    length-head : 8 + length (frames done) ≡ length head
    length-head = omega (
      arith,
      length-append (be_bytes 8 (8 + length (frames (done ++ (r ∷ rest))))) (frames done),
      length-be_bytes 8 (8 + length (frames (done ++ (r ∷ rest)))),
    )

    -- The bytes of a record and of its size where they stand.
    pub read_at-size :
        read_at (8 + length (frames done)) 2 (volume_of (done ++ (r ∷ rest), free))
        ≡ some (be_bytes 2 (byte_size r))
    read_at-size = rw volume_of-size (
        read_at-at (8 + length (frames done)) 2 head (be_bytes 2 (byte_size r)) _ length-head
          (sym (length-be_bytes 2 (byte_size r))))

    pub read_at-body :
        read_at (8 + length (frames done) + 2) (byte_size r) (volume_of (done ++ (r ∷ rest), free))
        ≡ some (body r)
    unfolding body
    read_at-body = rw volume_of-body (
        read_at-at (8 + length (frames done) + 2) (byte_size r) (head ++ be_bytes 2 (byte_size r))
          (body r) _
          (omega (
            arith,
            length-head,
            length-append head (be_bytes 2 (byte_size r)),
            length-be_bytes 2 (byte_size r),
          ))
          (sym (length-serialize r)))

  pub frames-le :
      (done : List R) (r : R) (rest : List R)
      → length (frames done) + 2 + byte_size r ≤ length (frames (done ++ (r ∷ rest)))
  unfolding frames
  frames-le done r rest = rw (frames-append done (r ∷ rest)) (
      omega (
        arith,
        length-append (frames done) (frames (r ∷ rest)),
        length-append (frame r) (frames rest),
        length-frame r,
      ))

  pub length-frames_one : (r : R) → 8 + length (frames (r ∷ [])) ≡ 10 + byte_size r
  unfolding frames
  length-frames_one r = omega (arith, length-append (frame r) [], length-frame r)

  pub length-frames_nil : (rs : List R) → rs ≡ [] → length (frames rs) ≡ 0
  unfolding frames
  length-frames_nil rs e = rw e refl

  pub get_pos-volume_of :
      (file_size : ℕ) (older newer : List (List ℕ)) (state : State) (rs : List R) (free : List ℕ)
      → 8 + length (frames rs) < 2 ^ 64
      → get_pos (files file_size older (volume_of (rs, free)) newer state)
        ≡ some (8 + length (frames rs))
  unfolding volume_of
  get_pos-volume_of file_size older newer state rs free h =
      get_pos-files file_size older newer state (8 + length (frames rs)) (frames rs ++ free) h

  module _ (file_size : ℕ) (older : List (List ℕ)) (state : State) where
    write_record-parts :
        (r : R) (done slot gap rest : List ℕ)
        → length slot ≡ 2
        → length gap ≡ byte_size r
        → write_record message r (byte_size r) (8 + length done) (
            files file_size older
              (be_bytes 8 (8 + length done) ++ (done ++ (slot ++ (gap ++ rest))))
              []
              state)
          ≡ some (
              files file_size older
                (be_bytes 8 (8 + length done + 2 + byte_size r)
                  ++ (((done ++ be_bytes 2 (byte_size r)) ++ body r) ++ rest))
                []
                state)
    unfolding write_record body
    write_record-parts r done slot gap rest e f =
        let n = 8 + length done in
        let size = be_bytes 2 (byte_size r) in
        let eight = length-be_bytes 8 n in
        rw
          (write_bytes-behind file_size older [] state n size (be_bytes 8 n) done slot (gap ++ rest)
            (omega arith) (e ∙ sym (length-be_bytes 2 (byte_size r))))
          (rw
            (write_bytes-behind file_size older [] state (n + 2) (body r) (be_bytes 8 n)
              (done ++ size) gap rest
              (omega (arith, length-append done size, length-be_bytes 2 (byte_size r)))
              (f ∙ sym (length-serialize r)))
            (set_pos-files file_size older [] state (n + 2 + byte_size r) n _))

    -- A record that fits into what is free of the current volume is added to it.
    pub write_record-fits :
        (r : R) (rs : List R) (free : List ℕ)
        → 2 + byte_size r ≤ length free
        → write_record message r
            (byte_size r)
            (8 + length (frames rs))
            (files file_size older (volume_of (rs, free)) [] state)
          ≡ some (
              files file_size older
                (volume_of (rs ++ (r ∷ []), drop (2 + byte_size r) free))
                []
                state)
    unfolding volume_of
    write_record-fits r rs free h =
        let k = byte_size r in
        let slot = take 2 free in
        let gap = take k (drop 2 free) in
        let rest = drop k (drop 2 free) in
        let whole : slot ++ (gap ++ rest) ≡ free =
          ap (λ t. slot ++ t) (take-append-drop k (drop 2 free)) ∙ take-append-drop 2 free in
        let longer = frames-snoc rs r in
        rw (← drop-drop 2 k free) (
          subst
            (λ t.
              write_record message r k (8 + length (frames rs)) (
                files file_size older (be_bytes 8 (8 + length (frames rs)) ++ (frames rs ++ t)) []
                  state)
              ≡ some (
                  files file_size older
                    (be_bytes 8 (8 + length (frames (rs ++ (r ∷ []))))
                      ++ (frames (rs ++ (r ∷ [])) ++ rest))
                    [] state))
            whole
            (rw (length-frames_snoc rs r) (
              rw longer (
                write_record-parts r (frames rs) slot gap rest (omega (arith, length-take 2 free))
                  (omega (arith, length-take k (drop 2 free), length-drop 2 free))))))
