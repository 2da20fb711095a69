-- ===== src/Etcd/Revision.antt =====
-- The revision that the watches keep, from which a watch is resumed.
use open_blocklist.Base.{
  Bytes, Option, none, some, ◌&&◌, not, List, [], ◌∷◌, All, str_eq, if◌then◌else◌, ◌≡◌, refl, sym,
  subst, arith, ◌∙◌, Bool-cases, inl, inr,
}
use open_blocklist.Base.Int.{ℤ, ◌≤ℤ◌}
use open_blocklist.State.{App, Go, WatchEvent, WatchResponse}
use open_blocklist.Etcd.{
  apply_event, apply_events, update_decoded, update_revision, read_revision, watch_message,
  watch_line, watch_lines,
}

-- The revision that a line announces in its header, if it can be decoded.
abbrev pub announced_by : Go → Option WatchResponse → Option ℤ
announced_by go none = none
announced_by go (some msg) =
    if not (str_eq msg.revision []) && (go.parse_int msg.revision).1
    then some (go.parse_int msg.revision).0
    else none

abbrev pub announced : Go → Bytes → Option ℤ
announced go line = announced_by go (go.unmarshal_watch line)

abbrev pub IsAtMost : Option ℤ → ℤ → Type 0
IsAtMost none r = Unit {0}
IsAtMost (some a) r = a ≤ℤ r

≤ℤ_trans : (a b c : ℤ) → a ≤ℤ b → b ≤ℤ c → a ≤ℤ c
≤ℤ_trans a b c h k = omega arith

AtMost_trans : (a : Option ℤ) (b c : ℤ) → IsAtMost a b → b ≤ℤ c → IsAtMost a c
AtMost_trans none b c h k = tt
AtMost_trans (some a) b c h k = omega arith

module _ (go : Go) where
  revision-apply_event :
      (ev : WatchEvent) (app : App) → (apply_event go ev app).revision ≡ app.revision
  unfolding apply_event update_decoded
  revision-apply_event ev app = ground arith

  pub revision-apply_events :
      (evs : List WatchEvent) (app : App) → (apply_events go evs app).revision ≡ app.revision
  unfolding apply_events
  revision-apply_events [] app = refl
  revision-apply_events (ev ∷ evs) app =
      revision-apply_events evs (apply_event go ev app) ∙ revision-apply_event ev app

  revision-update :
      (r : ℤ) (app : App)
      → (app.revision ≤ℤ (update_revision r app).revision) × (r ≤ℤ (update_revision r app).revision)
  unfolding update_revision
  revision-update r app = ground arith

  revision-read :
      (msg : WatchResponse) (app : App)
      → (app.revision ≤ℤ (read_revision go msg.revision app).revision)
        × IsAtMost (announced_by go (some msg)) (read_revision go msg.revision app).revision
  unfolding read_revision
  revision-read msg app =
      elim (Bool-cases (not (str_eq msg.revision []) && (go.parse_int msg.revision).1)) [
        | inl read ↦ rw read (revision-update (go.parse_int msg.revision).0 app)
        | inr skip ↦ rw skip (omega arith, tt)
      ]

  revision-watch_message :
      (msg : Option WatchResponse) (app : App)
      → (app.revision ≤ℤ (watch_message go msg app).revision)
        × IsAtMost (announced_by go msg) (watch_message go msg app).revision
  unfolding watch_message
  revision-watch_message none app = (omega arith, tt)
  revision-watch_message (some msg) app =
      subst (λ r. (app.revision ≤ℤ r) × IsAtMost (announced_by go (some msg)) r)
        (sym (revision-apply_events msg.events (read_revision go msg.revision app)))
        (revision-read msg app)

  -- Along the lines of a watch of the addresses the revision never decreases, and at the end it is
  -- at least every revision that a line announced.
  pub watch_lines_revision :
      (lines : List Bytes) (app : App)
      → (app.revision ≤ℤ (watch_lines go lines app).revision)
        × All (λ line. IsAtMost (announced go line) (watch_lines go lines app).revision) lines
  unfolding watch_lines watch_line
  watch_lines_revision [] app = (omega arith, tt)
  watch_lines_revision (line ∷ lines) app =
      let app' = watch_line go line app in
      let last = (watch_lines go lines app').revision in
      let (up, seen) = revision-watch_message (go.unmarshal_watch line) app in
      let (later, rest) = watch_lines_revision lines app' in
      (
        ≤ℤ_trans app.revision app'.revision last up later,
        (AtMost_trans (announced go line) app'.revision last seen later, rest),
      )
