-- ===== src/Http/Parser/Feed.antt =====
-- `Parser::feed` and `Parser::feed_step` of platform/http/src/parser.cpp. The http_parser library is a
-- parameter: the state of its parser of any type, and what a call of `http_parser_execute` does.
use itex_demo.Base.Text.{Text}
use itex_demo.Base.{
  zero, [], ◌⊎◌, none, some, ◌≡◌, ◌<◌, length, ltb, suc, drop, false, ◌∷◌, ◌+◌, Option, true, ◌≤◌,
  take, Bool, ℕ, if◌then◌else◌,
}

-- `parser_->http_errno` behind a call.
pub data Errno : Type 0 where
  errno_ok errno_paused errno_failed : Errno

-- A call: the bytes that it took, the error, `parsing_complete_` as its callbacks leave it, and the
-- parser behind it.
pub record Executed (L : Type 0) : Type 0 where
  pub used : ℕ
  pub errno : Errno
  pub complete : Bool
  pub next : L

pub record Library (L : Type 0) : Type 0 where
  pub execute : L → Text → Executed L
  pub unpause : L → L

-- How `feed` ends: with the bytes that it took, `parsing_complete_` and the parser; `runs_on` is a loop
-- that has not ended.
pub data Fed (L : Type 0) : Type 0 where
  fed : ℕ → Bool → L → Fed L
  feed_throws runs_on : Fed L

module _ {L : Type 0} (lib : Library L) where
  open lib use {execute, unpause}

  unfoldable pub is_paused : Errno → Bool
  is_paused errno_paused = true
  is_paused errno_ok = false
  is_paused errno_failed = false

  unfoldable pub unpaused : Executed L → L
  unpaused e = if is_paused e.errno then unpause e.next else e.next

  -- The byte that triggered a pause behind the headers.
  unfoldable pub one_more : Executed L → Text → ℕ × (Bool × L)
  one_more e bytes =
      let f = execute (unpaused e) (take 1 (drop e.used bytes)) in
      (e.used + f.used, (f.complete, f.next))

  -- `feed_step`; `none` is its exception.
  unfoldable pub feed_step : L → Text → Option (ℕ × (Bool × L))
  feed_step l bytes =
      let e = execute l bytes in
      if ltb e.used (length bytes)
      then (if is_paused e.errno
          then (if e.complete
              then some (e.used, (e.complete, unpaused e))
              else some (one_more e bytes))
          else none)
      else some (e.used, (e.complete, unpaused e))

  unfoldable pub add_used : ℕ → Fed L → Fed L
  add_used pass (fed used complete l) = fed (pass + used) complete l
  add_used pass feed_throws = feed_throws
  add_used pass runs_on = runs_on

  -- `feed`, at most `fuel` rounds of its loop.
  unfoldable pub feed : ℕ → Bool → L → Text → Fed L
  feed fuel true l bytes = fed 0 true l
  feed fuel false l [] = fed 0 false l
  feed zero false l (b ∷ bytes) = runs_on
  feed (suc fuel) false l (b ∷ bytes) = elim (feed_step l (b ∷ bytes)) [
    | none ↦ feed_throws
    | some (pass, (complete, l')) ↦ add_used pass (feed fuel complete l' (drop pass (b ∷ bytes)))
  ]

  -- What the library documents: a call takes no more bytes than it is given; a parser that a callback
  -- paused, and that is unpaused before the message is complete, goes on with the byte it stopped at,
  -- which it takes unless it fails; and one that has failed takes nothing any more. A pause may come
  -- before any byte is taken.
  pub record Takes : Type 0 where
    pub bounded : (l : L) (bytes : Text) → (execute l bytes).used ≤ length bytes
    pub resumes :
        (l : L) (bytes : Text)
        → let e = execute l bytes in
          let f = execute (unpause e.next) (take 1 (drop e.used bytes)) in
          e.errno ≡ errno_paused
          → e.complete ≡ false
          → e.used < length bytes
          → (0 < f.used) ⊎ (f.errno ≡ errno_failed)
    pub stays_failed :
        (l : L) (bytes more : Text)
        → (execute l bytes).errno ≡ errno_failed
        → ((execute (execute l bytes).next more).used ≡ 0)
          × ((execute (execute l bytes).next more).errno ≡ errno_failed)

  -- What `feed` ends with: an exception, or a message that is complete, or all bytes taken.
  abbrev pub Ends : Text → Fed L → Type 0
  Ends bytes feed_throws = Unit
  Ends bytes runs_on = ⊥
  Ends bytes (fed used complete l) =
      (used ≤ length bytes) × ((complete ≡ true) ⊎ (used ≡ length bytes))
