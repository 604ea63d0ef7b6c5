-- ===== src/Cgatepp/Volumes/Holding.antt =====
-- The records that the files hold, and that writing adds to them.
use itex_demo.Cgatepp.Volumes.Writing.{
  write_next-opens, init_pos-new, AllFilled, open_volume-first, records_of, write_next-fits,
}
use itex_demo.Cgatepp.Volumes.Layout.{
  length-frames_nil, length-frames_one, length-frames_snoc, files, frames, volume_of,
}
use itex_demo.Base.{
  inr, map-append, ap, ◌∙◌, inl, append_assoc, length-drop, sym, dec_le, append-nil, ◌⊎◌, map, ◌≢◌,
  length-replicate, refl, drop, ◌∷◌, some, [], arith, ◌-◌, ◌+◌, ◌++◌, length, ◌^◌, ◌≡◌, replicate,
  ◌<◌, ◌≤◌,
}
use itex_demo.Cgatepp.Volumes.{
  open_last, write_all, open_files, Files, dumping, write_next, List, ℕ, Message,
}

module _ {R : Type 0} (message : Message R) where
  open message use {byte_size}

  abbrev pub AllSmall : List R → Type 0
  AllSmall [] = Unit
  AllSmall (r ∷ rs) = (byte_size r < 2 ^ 16) × AllSmall rs

  -- Each volume's records fit into its file.
  abbrev pub AllFit : ℕ → List (List R × List ℕ) → Type 0
  AllFit file_size [] = Unit
  AllFit file_size ((rs, free) ∷ vs) =
      (8 + length (frames message rs) ≤ file_size) × AllSmall rs × AllFit file_size vs

  AllSmall-append :
      (rs : List R) (r : R) → AllSmall rs → byte_size r < 2 ^ 16 → AllSmall (rs ++ (r ∷ []))
  AllSmall-append [] r h s = (s, tt)
  AllSmall-append (x ∷ rs) r h s = (h.0, AllSmall-append rs r h.1 s)

  pub AllFit-append :
      (file_size : ℕ) (vs : List (List R × List ℕ)) (rs : List R) (free : List ℕ)
      → AllFit file_size vs
      → 8 + length (frames message rs) ≤ file_size
      → AllSmall rs
      → AllFit file_size (vs ++ ((rs, free) ∷ []))
  AllFit-append file_size [] rs free h f s = (f, s, tt)
  AllFit-append file_size ((ss, g) ∷ vs) rs free h f s =
      (h.0, h.1, AllFit-append file_size vs rs free h.2 f s)

-- The files of a program that has written the records `rss`: volumes with at least one record each,
-- of which the last is mapped.
pub record Holds {R : Type 0} (message : Message R) (file_size : ℕ) (rss : List R) (d : Files)
    : Type 0 where
  pub full : List (List R × List ℕ)
  pub last : List R
  pub free : List ℕ
  pub shape :
      d ≡ files file_size (map (volume_of message) full) (volume_of message (last, free)) [] dumping
  pub room : 8 + length (frames message last) + length free ≡ file_size
  pub filled : AllFilled full
  pub begun : (last ≢ []) ⊎ (full ≡ [])
  pub content : records_of full ++ last ≡ rss
  pub small : AllSmall message last
  pub fit : AllFit message file_size full

pub records_of-append :
    {R F : Type 0} (vs : List (List R × F)) (rs : List R) (free : F)
    → records_of (vs ++ ((rs, free) ∷ [])) ≡ records_of vs ++ rs
unfolding records_of
records_of-append [] rs free = append-nil rs
records_of-append ((ss, f) ∷ vs) rs free =
    rw (records_of-append vs rs free) (sym (append_assoc ss (records_of vs) rs))

pub AllFilled-append :
    {R F : Type 0} (vs : List (List R × F)) (rs : List R) (free : F)
    → AllFilled vs
    → rs ≢ []
    → AllFilled (vs ++ ((rs, free) ∷ []))
AllFilled-append [] rs free h e = (e, tt)
AllFilled-append ((ss, f) ∷ vs) rs free h e = (h.0, AllFilled-append vs rs free h.1 e)

snoc-ne-nil : {R : Type 0} (rs : List R) (r : R) → (rs ++ (r ∷ [])) ≢ []
snoc-ne-nil [] r e = cc
snoc-ne-nil (x ∷ rs) r e = cc

module _ {R : Type 0} (message : Message R) (file_size : ℕ) where
  open message use {byte_size}

  -- A record of a size that sixteen bits hold and that a volume has room for.
  abbrev pub Writable : R → Type 0
  Writable r = (byte_size r < 2 ^ 16) × (10 + byte_size r ≤ file_size)

  module _ (r : R) (rss : List R) (d : Files) (sized : file_size < 2 ^ 64) (w : Writable r)
      (h : Holds message file_size rss d) where
    abbrev older : List (List ℕ)
    older = map (volume_of message) h.full

    abbrev used : ℕ
    used = 8 + length (frames message h.last)

    abbrev with_record : Files
    with_record =
        files file_size older
          (volume_of message (h.last ++ (r ∷ []), drop (2 + byte_size r) h.free)) [] dumping

    with_record-Holds :
        used + 2 + byte_size r ≤ file_size → Holds message file_size (rss ++ (r ∷ [])) with_record
    with_record-Holds fits = record {
      full = h.full;
      last = h.last ++ (r ∷ []);
      free = drop (2 + byte_size r) h.free;
      shape = refl;
      room = omega (
        arith,
        length-frames_snoc message h.last r,
        length-drop (2 + byte_size r) h.free,
        h.room,
      );
      filled = h.filled;
      begun = inl (snoc-ne-nil h.last r);
      content =
          sym (append_assoc (records_of h.full) h.last (r ∷ []))
          ∙ ap (λ t. t ++ (r ∷ [])) h.content;
      small = AllSmall-append message h.last r h.small w.0;
      fit = h.fit;
    }

    abbrev with_volume : Files
    with_volume =
        files file_size (older ++ (volume_of message (h.last, h.free) ∷ []))
          (volume_of message (r ∷ [], drop (2 + byte_size r) (replicate (file_size - 8) 0))) []
          dumping

    with_volume-Holds :
        file_size < used + 2 + byte_size r → Holds message file_size (rss ++ (r ∷ [])) with_volume
    with_volume-Holds more = record {
      full = h.full ++ ((h.last, h.free) ∷ []);
      last = r ∷ [];
      free = drop (2 + byte_size r) (replicate (file_size - 8) 0);
      shape = rw (map-append (volume_of message) h.full ((h.last, h.free) ∷ [])) refl;
      room = omega (
        arith,
        length-frames_one message r,
        length-drop {A = ℕ} (2 + byte_size r) (replicate (file_size - 8) 0),
        length-replicate {A = ℕ} (file_size - 8) 0,
        w.1,
      );
      filled =
          AllFilled-append h.full h.last h.free h.filled
            (λ e. absurd (omega (arith, length-frames_nil message h.last e, w.1)));
      begun = inl (λ e. cc);
      content = rw (records_of-append h.full h.last h.free) (ap (λ t. t ++ (r ∷ [])) h.content);
      small = (w.0, tt);
      fit =
          AllFit-append message file_size h.full h.last h.free h.fit (omega (arith, h.room))
            h.small;
    }

    -- A record that is written is added to what the files hold.
    pub write_next-Holds :
        (d' : Files) × (write_next message r d ≡ some d')
        × Holds message file_size (rss ++ (r ∷ [])) d'
    write_next-Holds = elim (dec_le (used + 2 + byte_size r) file_size) [
      | yes fits ↦ (
        with_record,
        rw h.shape (write_next-fits message file_size older r h.last h.free w.0 sized h.room fits),
        with_record-Holds fits,
      )
      | no more ↦ (
        with_volume,
        rw h.shape (
            write_next-opens message file_size older r h.last h.free w.0 sized h.room (omega arith)
              w.1),
        with_volume-Holds (omega arith),
      )
    ]

  abbrev pub AllWritable : List R → Type 0
  AllWritable [] = Unit
  AllWritable (r ∷ rs) = Writable r × AllWritable rs

  pub write_all-Holds :
      (rs rss : List R) (d : Files)
      → file_size < 2 ^ 64
      → AllWritable rs
      → Holds message file_size rss d
      → (d' : Files) × (write_all message rs d ≡ some d') × Holds message file_size (rss ++ rs) d'
  unfolding write_all
  write_all-Holds [] rss d sized w h = (d, refl, rw (append-nil rss) h)
  write_all-Holds (r ∷ rs) rss d sized w h =
      let (d₁, e₁, h₁) = write_next-Holds r rss d sized w.0 h in
      let (d₂, e₂, h₂) = write_all-Holds rs (rss ++ (r ∷ [])) d₁ sized w.1 h₁ in
      (d₂, rw e₁ e₂, rw (append_assoc rss (r ∷ []) rs) at h₂)

  -- A program that finds no volumes begins with an empty one.
  pub open_files-Holds :
      8 ≤ file_size
      → (d : Files) × (open_files file_size [] ≡ some d) × Holds message file_size [] d
  unfolding open_files open_last
  open_files-Holds h =
      let d : Files =
        files file_size [] (volume_of message ([], replicate (file_size - 8) 0)) [] dumping in
      (
        d,
        rw (open_volume-first file_size (omega arith), init_pos-new message file_size [] h) refl,
        record {
          full = [];
          last = [];
          free = replicate (file_size - 8) 0;
          shape = refl;
          room = omega (
            arith,
            length-frames_nil message [] refl,
            length-replicate {A = ℕ} (file_size - 8) 0,
          );
          filled = tt;
          begun = inr refl;
          content = unfold records_of in refl;
          small = tt;
          fit = tt;
        },
      )
