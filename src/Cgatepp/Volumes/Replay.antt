-- ===== src/Cgatepp/Volumes/Replay.antt =====
-- What was written is what is replayed.
use itex_demo.Cgatepp.Volumes.Reading.{read_next-more, read_next-last, read_next-here}
use itex_demo.Cgatepp.Volumes.Holding.{
  write_all-Holds, open_files-Holds, AllWritable, Holds, AllFilled-append, records_of-append,
  AllSmall, AllFit, AllFit-append,
}
use itex_demo.Cgatepp.Volumes.Writing.{AllFilled, records_of}
use itex_demo.Cgatepp.Volumes.Layout.{volume_of, files, frames}
use native.Mathlib.Nat.{add-zero}
use itex_demo.Base.{
  ◌>>=◌, map-append, true, ltb, ap, inr, inl, ◌⊎◌, ◌≢◌, append-nil, sym, none, ◌≤◌, subst, ◌∙◌,
  length-append, refl, zero, append_assoc, suc, arith, some, ◌≡◌, map, ◌++◌, [], ◌^◌, length, ◌<◌,
}
use itex_demo.Cgatepp.Volumes.{
  write_all, open_files, pos_by_state, open_volume, open_file_and_get_pos, dumping, replay, State,
  read_next, replaying, Files, ◌+◌, ◌∷◌, read_all, List, ℕ, Message,
}

module _ {R : Type 0} (message : Message R) (file_size : ℕ) where
  open message use {byte_size}

  read_all-step :
      (fuel pos pos' : ℕ) (d d' d'' : Files) (r : R) (rs : List R)
      → read_next message pos d ≡ some (d', some (r, pos'))
      → read_all message fuel pos' d' ≡ some (d'', rs)
      → read_all message (suc fuel) pos d ≡ some (d'', r ∷ rs)
  unfolding read_all
  read_all-step fuel pos pos' d d' d'' r rs e h = rw e (rw h refl)

  read_all-last :
      (fuel pos : ℕ) (d d' : Files)
      → read_next message pos d ≡ some (d', none)
      → read_all message (suc fuel) pos d ≡ some (d', [])
  unfolding read_all
  read_all-last fuel pos d d' e = rw e refl

  read_next-in :
      (before after : List (List ℕ)) (done : List R) (r : R) (rest whole : List R) (free : List ℕ)
      → byte_size r < 2 ^ 16
      → done ++ (r ∷ rest) ≡ whole
      → 8 + length (frames message whole) < 2 ^ 64
      → read_next message
          (8 + length (frames message done))
          (files file_size before (volume_of message (whole, free)) after replaying)
        ≡ some (
          files file_size before (volume_of message (whole, free)) after replaying,
          some (r, 8 + length (frames message (done ++ (r ∷ [])))),
        )
  read_next-in before after done r rest whole free small e =
      subst
        (λ w.
          8 + length (frames message w) < 2 ^ 64
          → read_next message (8 + length (frames message done))
              (files file_size before (volume_of message (w, free)) after replaying)
            ≡ some (
              files file_size before (volume_of message (w, free)) after replaying,
              some (r, 8 + length (frames message (done ++ (r ∷ [])))),
            ))
        e (read_next-here message file_size replaying before after done r rest free small)

  -- The files after a replay, which has the last volume mapped.
  abbrev ended : List (List ℕ) → List ℕ → List (List ℕ) → State → Files
  ended before v after state = record {
    file_size = file_size;
    volumes = before ++ (v ∷ after);
    current_id = length before + length after;
    state = state;
  }

  ended-cons :
      (before : List (List ℕ)) (v w : List ℕ) (after : List (List ℕ))
      → ended (before ++ (v ∷ [])) w after replaying ≡ ended before v (w ∷ after) replaying
  ended-cons before v w after =
      let number : length (before ++ (v ∷ [])) + length after ≡ length before + suc (length after) =
        omega (arith, length-append before (v ∷ [])) in
      rw (append_assoc before (v ∷ []) (w ∷ after), number) refl

  -- From a position in a volume on, the rest of the volume and the volumes after it.
  read_all-rest :
      (fuel : ℕ) (before : List (List ℕ)) (done rest whole : List R) (free : List ℕ)
      (after : List (List R × List ℕ))
      → length rest + length (records_of after) < fuel
      → done ++ rest ≡ whole
      → file_size < 2 ^ 64
      → 8 + length (frames message whole) ≤ file_size
      → AllSmall message rest
      → AllFilled after
      → AllFit message file_size after
      → read_all message fuel (8 + length (frames message done)) (
          files file_size before
            (volume_of message (whole, free))
            (map (volume_of message) after)
            replaying)
        ≡ some (
          ended before (volume_of message (whole, free)) (map (volume_of message) after) replaying,
          rest ++ records_of after,
        )
  unfolding records_of
  read_all-rest zero before done rest whole free after f e limit sized small filled fit =
      absurd (omega arith)
  read_all-rest (suc fuel) before done (r ∷ rest) whole free after f e limit sized small filled
        fit =
      read_all-step fuel _ _ _ _ _ r _
        (read_next-in before (map (volume_of message) after) done r rest whole free small.0 e
          (omega arith))
        (read_all-rest fuel before (done ++ (r ∷ [])) rest whole free after (omega arith)
          (append_assoc done (r ∷ []) rest ∙ e) limit sized small.1 filled fit)
  read_all-rest (suc fuel) before done [] whole free [] f e limit sized small filled fit =
      rw (sym (sym (append-nil done) ∙ e)) (
        read_all-last fuel (8 + length (frames message done)) _ _ (
          read_next-last message file_size before done free
            (rw (sym (append-nil done) ∙ e) (omega arith)) replaying)
        ∙ rw (add-zero (length before)) refl)
  read_all-rest (suc fuel) before done [] whole free (([], free') ∷ after) f e limit sized small
        filled fit =
      absurd (filled.0 refl)
  read_all-rest (suc fuel) before done [] whole free ((r ∷ rest, free') ∷ after) f e limit sized
        small filled fit =
      let same : done ≡ whole = sym (append-nil done) ∙ e in
      let v = volume_of message (whole, free) in
      subst
        (λ d.
          read_all message (suc fuel) (8 + length (frames message done)) (
            files file_size before v (map (volume_of message) ((r ∷ rest, free') ∷ after))
              replaying)
          ≡ some (d, r ∷ (rest ++ records_of after)))
        (ended-cons before v (volume_of message (r ∷ rest, free')) (map (volume_of message) after))
        (read_all-step fuel _ _ _ _ _ r _
          (rw same (
            read_next-more message file_size before whole free (omega arith) r rest free'
              (map (volume_of message) after) fit.1.0 (omega (arith, fit.0))))
          (read_all-rest fuel (before ++ (v ∷ [])) (r ∷ []) rest (r ∷ rest) free' after
            (omega (arith, length-append rest (records_of after))) refl limit fit.0 fit.1.1 filled.1
            fit.2))

  -- A replay begins with the first volume, behind its position.
  replay-first :
      (fuel n : ℕ) (v : List ℕ) (after : List (List ℕ)) (d' : Files) (rs : List R)
      → read_all message fuel 8 (files file_size [] v after replaying) ≡ some (d', rs)
      → replay message fuel
          (record { file_size = file_size; volumes = v ∷ after; current_id = n; state = dumping })
        ≡ some (record d' { state = dumping }, rs)
  unfolding replay open_file_and_get_pos open_volume pos_by_state
  replay-first fuel n v after d' rs e =
      let there : ltb 0 (suc (length after)) ≡ true = ground arith in rw there (rw e refl)

  replay-full :
      (fuel : ℕ) (full : List (List R × List ℕ)) (last : List R) (free : List ℕ)
      → file_size < 2 ^ 64
      → 8 + length (frames message last) ≤ file_size
      → AllSmall message last
      → AllFilled full
      → AllFit message file_size full
      → (last ≢ []) ⊎ (full ≡ [])
      → length (records_of full ++ last) < fuel
      → replay message fuel (
          files file_size
            (map (volume_of message) full)
            (volume_of message (last, free))
            []
            dumping)
        ≡ some (
          files file_size
              (map (volume_of message) full)
              (volume_of message (last, free))
              []
              dumping,
          records_of full ++ last,
        )
  unfolding records_of frames
  replay-full fuel [] last free limit room small filled fit begun f =
      replay-first fuel 0 (volume_of message (last, free)) [] _ _
        (read_all-rest fuel [] [] last last free [] (omega arith) refl limit room small tt tt)
      ∙ rw (append-nil last) refl
  replay-full fuel ((rs, g) ∷ vs) last free limit room small filled fit (inr e) f = cc
  replay-full fuel ((rs, g) ∷ vs) last free limit room small filled fit (inl e) f =
      let all = vs ++ ((last, free) ∷ []) in
      let f' = volume_of message in
      let volumes : map f' vs ++ (f' (last, free) ∷ []) ≡ map f' all =
        sym (map-append f' vs ((last, free) ∷ [])) in
      let records : (rs ++ records_of vs) ++ last ≡ rs ++ records_of all =
        append_assoc rs (records_of vs) last
        ∙ ap (λ t. rs ++ t) (sym (records_of-append vs last free)) in
      let number : 0 + length (map f' all) ≡ suc (length (map f' vs)) =
        rw (map-append f' vs ((last, free) ∷ []))
          (omega (arith, length-append (map f' vs) (f' (last, free) ∷ []))) in
      rw (volumes, records)
        (replay-first fuel (suc (length (map f' vs))) (f' (rs, g)) (map f' all) _ _ (
            read_all-rest fuel [] [] rs rs g all
              (omega (arith, ap length records, length-append rs (records_of all))) refl limit fit.0
              fit.1 (AllFilled-append vs last free filled.1 e)
              (AllFit-append message file_size vs last free fit.2 room small))
          ∙ ap
              (λ (n : ℕ). some (
                record {
                  file_size = file_size;
                  volumes = f' (rs, g) ∷ map f' all;
                  current_id = n;
                  state = dumping;
                },
                rs ++ records_of all,
              ))
              number)

  -- A replay gives the records that the files hold, in order, and leaves the files as they were.
  pub replay-Holds :
      (fuel : ℕ) (rss : List R) (d : Files)
      → file_size < 2 ^ 64
      → Holds message file_size rss d
      → length rss < fuel
      → replay message fuel d ≡ some (d, rss)
  replay-Holds fuel rss d limit h f = rw h.shape (
      rw (← h.content) (
        replay-full fuel h.full h.last h.free limit (omega (arith, h.room)) h.small h.filled h.fit
          h.begun (omega (arith, ap length h.content))))

  -- A program that finds no volumes and writes records, each of at most 65535 bytes and of a size
  -- that an empty volume has room for, gets from a replay these records, in order, from however many
  -- volumes they fill; the files are then as they were. A replay needs one round more than there are
  -- records.
  pub replay-write_all :
      (fuel : ℕ) (rs : List R)
      → 8 ≤ file_size
      → file_size < 2 ^ 64
      → AllWritable message file_size rs
      → length rs < fuel
      → (d : Files) × ((open_files file_size [] >>= write_all message rs) ≡ some d)
        × (replay message fuel d ≡ some (d, rs))
  replay-write_all fuel rs room limit w f =
      let (d₀, e₀, h₀) = open_files-Holds message file_size room in
      let (d, e, h) = write_all-Holds message file_size rs [] d₀ limit w h₀ in
      (d, rw e₀ e, replay-Holds fuel rs d limit h f)
