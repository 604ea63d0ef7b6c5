-- ===== src/Http/Parser/Feeding.antt =====
-- The loop of `Parser::feed` in platform/http/src/parser.cpp ends.
use itex_demo.Base.Text.{Text}
use itex_demo.Base.{
  sym, subst, ◌⊎◌, ltb→lt, length-take, take, refl, [], some-injective, ap, false, if◌then◌else◌,
  zero, true, ltb, none, Option, ◌∷◌, suc, inr, length-drop, some, inl, arith, ◌≡◌, drop, length,
  ◌<◌, Bool, ◌≤◌, ℕ,
}
use itex_demo.Http.Parser.Feed.{
  Errno, errno_ok, errno_paused, errno_failed, Library, Fed, fed, feed_throws, runs_on, is_paused,
  unpaused, one_more, feed_step, add_used, feed, Takes, Ends,
}

module _ {L : Type 0} (lib : Library L) where
  paused_errno : (err : Errno) → is_paused lib err ≡ true → err ≡ errno_paused
  unfolding is_paused
  paused_errno errno_ok p = cc
  paused_errno errno_paused p = refl
  paused_errno errno_failed p = cc

  -- A parser that takes nothing any more.
  abbrev TakesNothing : L → Type 0
  TakesNothing l =
      (bytes : Text)
      → ((lib.execute l bytes).used ≡ 0) × ((lib.execute l bytes).errno ≡ errno_failed)

module _ {L : Type 0} (lib : Library L) (takes : Takes lib) where
  one_more-used :
      (l : L) (bytes : Text)
      → let e = lib.execute l bytes in
        is_paused lib e.errno ≡ true
        → e.complete ≡ false
        → e.used < length bytes
        → ((one_more lib e bytes).0 ≤ length bytes)
          × ((0 < (one_more lib e bytes).0) ⊎ TakesNothing lib (one_more lib e bytes).1.1)
  unfolding one_more unpaused
  one_more-used l bytes g done short =
      let e = lib.execute l bytes in
      let byte = take 1 (drop e.used bytes) in
      let one = takes.bounded (unpaused lib e) byte in
      let room = length-take 1 (drop e.used bytes) in
      let left = length-drop e.used bytes in
      (
        omega (arith, one, room, left, short),
        rw (g, unpaused)
            (elim (takes.resumes l bytes (paused_errno lib e.errno g) done short) [
              | inl some_byte ↦ inl (omega (arith, some_byte))
              | inr fails ↦ inr (λ more. takes.stays_failed (lib.unpause e.next) byte more fails)
            ]),
      )

  -- A round takes a byte, or the message is complete, or the parser has failed.
  feed_step-used :
      (l : L) (bytes : Text) (pass : ℕ) (complete : Bool) (l' : L)
      → 0 < length bytes
      → feed_step lib l bytes ≡ some (pass, (complete, l'))
      → (pass ≤ length bytes) × ((0 < pass) ⊎ ((complete ≡ true) ⊎ TakesNothing lib l'))
  unfolding feed_step
  feed_step-used l bytes pass complete l' some_byte e =
      by_tests (ltb (lib.execute l bytes).used (length bytes))
        (is_paused lib (lib.execute l bytes).errno) (lib.execute l bytes).complete refl refl refl e
    where
      by_tests :
          (short paused done : Bool)
          → ltb (lib.execute l bytes).used (length bytes) ≡ short
          → is_paused lib (lib.execute l bytes).errno ≡ paused
          → (lib.execute l bytes).complete ≡ done
          → (if short
              then (if paused
                  then (if done
                      then some
                          ((lib.execute l bytes).used, (done, unpaused lib (lib.execute l bytes)))
                      else some (one_more lib (lib.execute l bytes) bytes))
                  else none)
              else some ((lib.execute l bytes).used, (done, unpaused lib (lib.execute l bytes))))
            ≡ some (pass, (complete, l'))
          → (pass ≤ length bytes) × ((0 < pass) ⊎ ((complete ≡ true) ⊎ TakesNothing lib l'))
      by_tests false paused done f g c k =
          let same = ap (λ (y : ℕ × (Bool × L)). y.0) (some-injective _ _ k) in
          let fits = takes.bounded l bytes in
          let all : length bytes ≤ (lib.execute l bytes).used = ground arith in
          (omega (arith, same, fits), inl (omega (arith, same, all, some_byte)))
      by_tests true false done f g c k = cc
      by_tests true true true f g c k =
          let same = ap (λ (y : ℕ × (Bool × L)). y.0) (some-injective _ _ k) in
          let ends = ap (λ (y : ℕ × (Bool × L)). y.1.0) (some-injective _ _ k) in
          let fits = takes.bounded l bytes in (omega (arith, same, fits), inr (inl (sym ends)))
      by_tests true true false f g c k =
          let same = some-injective _ _ k in
          let (fits, above) = one_more-used l bytes g c (ltb→lt _ _ f) in
          subst
            (λ (y : ℕ × (Bool × L)).
              (y.0 ≤ length bytes) × ((0 < y.0) ⊎ ((y.1.0 ≡ true) ⊎ TakesNothing lib y.1.1)))
            same (fits, elim above [ inl taken ↦ inl taken | inr fails ↦ inr (inr fails) ])

  add_used-Ends :
      (pass : ℕ) (bytes : Text) (x : Fed L)
      → pass ≤ length bytes
      → Ends lib (drop pass bytes) x
      → Ends lib bytes (add_used lib pass x)
  unfolding add_used
  add_used-Ends pass bytes (fed used complete l) h (fits, done) =
      let rest = length-drop pass bytes in
      (omega arith, elim done [ inl c ↦ inl c | inr all ↦ inr (omega arith) ])
  add_used-Ends pass bytes feed_throws h e = tt
  add_used-Ends pass bytes runs_on h e = e

  complete-Ends : (fuel : ℕ) (l : L) (bytes : Text) → Ends lib bytes (feed lib fuel true l bytes)
  unfolding feed
  complete-Ends fuel l bytes = (omega arith, inl refl)

  feed_step-TakesNothing :
      (l : L) (bytes : Text) → 0 < length bytes → TakesNothing lib l → feed_step lib l bytes ≡ none
  unfolding feed_step is_paused
  feed_step-TakesNothing l bytes some_byte f =
      let (nothing, fails) = f bytes in
      let short : ltb (lib.execute l bytes).used (length bytes) ≡ true = ground arith in
      rw (short, feed_step)
        (ap
          (λ x.
            if is_paused lib x
            then (if (lib.execute l bytes).complete
                then some (
                  (lib.execute l bytes).used,
                  ((lib.execute l bytes).complete, unpaused lib (lib.execute l bytes)),
                )
                else some (one_more lib (lib.execute l bytes) bytes))
            else none)
          fails)

  -- The round behind a failure throws.
  feed-Ends_nothing :
      (fuel : ℕ) (complete : Bool) (l : L) (bytes : Text)
      → 0 < fuel
      → TakesNothing lib l
      → Ends lib bytes (feed lib fuel complete l bytes)
  unfolding feed
  feed-Ends_nothing fuel true l bytes h f = complete-Ends fuel l bytes
  feed-Ends_nothing zero false l bytes h f = absurd (omega arith)
  feed-Ends_nothing (suc fuel) false l [] h f = (omega arith, inr refl)
  feed-Ends_nothing (suc fuel) false l (b ∷ bytes) h f =
      rw (feed_step-TakesNothing l (b ∷ bytes) (omega arith) f, feed) tt

  -- The loop of `feed` ends, within one round more than there are bytes: it takes no byte that is not
  -- there, and where it does not throw it has taken all of them unless the message is complete. The
  -- library must take no byte that is not there, must take the byte that it was paused at when it is
  -- unpaused, unless it fails, and nothing once it has failed; it may pause before it takes any.
  pub feed-Ends :
      (fuel : ℕ) (complete : Bool) (l : L) (bytes : Text)
      → length bytes < fuel
      → Ends lib bytes (feed lib fuel complete l bytes)
  unfolding feed
  feed-Ends fuel true l bytes h = complete-Ends fuel l bytes
  feed-Ends zero false l bytes h = absurd (omega arith)
  feed-Ends (suc fuel) false l [] h = (omega arith, inr refl)
  feed-Ends (suc fuel) false l (b ∷ bytes) h =
      by_step (λ c m t q. feed-Ends fuel c m t q) (feed_step lib l (b ∷ bytes)) refl
    where
      rest :
          ((c : Bool) (m : L) (t : Text) → length t < fuel → Ends lib t (feed lib fuel c m t))
          → (pass : ℕ) (c : Bool) (m : L) → (0 < pass) ⊎ ((c ≡ true) ⊎ TakesNothing lib m)
          → Ends lib (drop pass (b ∷ bytes)) (feed lib fuel c m (drop pass (b ∷ bytes)))
      rest loop pass c m (inl some_byte) =
          loop c m (drop pass (b ∷ bytes)) (omega (arith, some_byte, length-drop pass (b ∷ bytes)))
      rest loop pass c m (inr (inl done)) =
          subst (λ x. Ends lib (drop pass (b ∷ bytes)) (feed lib fuel x m (drop pass (b ∷ bytes))))
            (sym done) (complete-Ends fuel m (drop pass (b ∷ bytes)))
      rest loop pass c m (inr (inr fails)) =
          feed-Ends_nothing fuel c m (drop pass (b ∷ bytes)) (omega arith) fails

      by_step :
          ((c : Bool) (m : L) (t : Text) → length t < fuel → Ends lib t (feed lib fuel c m t))
          → (x : Option (ℕ × (Bool × L))) → feed_step lib l (b ∷ bytes) ≡ x
          → Ends lib (b ∷ bytes) (elim x [
            | none ↦ feed_throws
            | some (pass, (complete, l')) ↦
                add_used lib pass (feed lib fuel complete l' (drop pass (b ∷ bytes)))
          ])
      by_step loop none e = tt
      by_step loop (some (pass, (complete, l'))) e =
          let (below, above) = feed_step-used l (b ∷ bytes) pass complete l' (omega arith) e in
          add_used-Ends pass (b ∷ bytes) _ below (rest loop pass complete l' above)
