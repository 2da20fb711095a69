-- ===== src/Log/Pool/Simulates.antt =====
-- log.go: a step of the pointers and buffers next to a step of the lines that they hold.
use open_blocklist.Base.{
  ℕ, ◌==◌, ==_iff, Bytes, false, List, [], ◌∷◌, ◌++◌, map, length, ◌≡◌, sym, ap, subst, ◌∙◌, arith,
  Bool-cases, inl, inr,
}
use mathlib.Core.List.{map-append}
use open_blocklist.Log.Pool.{
  Memory, store, allocate, get, put, append_to, copy_out, Flow, has_room, deliver, Machine, Step,
  began, appended, abandoned, copied, delivered, worked,
}
use open_blocklist.Log.Pool.Counts.{count, count-append, count-middle, self}
use open_blocklist.Log.Pool.Owned.{
  IsOwned, also, IsOwned-held, not_held, store-IsOwned, get-IsOwned, put-IsOwned, copy_out-IsOwned,
}
use open_blocklist.Log.Pool.Lines.{
  LineStep, line_began, line_appended, line_abandoned, line_copied, line_delivered, line_worked,
  lines_in, view, in_flow, lines-split, lines_in-put, get_from-cell, with_line-eq, appended-line,
  copied-line, lines_in-deliver,
}

-- A step of lines at which the pointers stand for a step of values, and what holds behind it.
abbrev pub Simulates : Machine → Machine → Type 0
Simulates s s' =
    IsOwned s.memory (in_flow s.flow)
    → IsOwned s'.memory (in_flow s'.flow) × LineStep (view s) (view s')

-- The pointers of a goroutine that puts its buffer back.
held-without :
    (f : Flow ℕ) (b : ℕ) (before behind : List ℕ)
    → f.building ≡ before ++ b ∷ behind
    → (p : ℕ) → also b (in_flow (record f { building = before ++ behind })) p ≡ in_flow f p
held-without f b before behind e p = omega (arith, count-middle p b before behind, ap (count p) e)

abandoned-Simulates :
    (b : ℕ) (before behind : List ℕ) (m : Memory) (f : Flow ℕ)
    → f.building ≡ before ++ b ∷ behind
    → Simulates
        (record { memory = m; flow = f })
        (record { memory = put b m; flow = record f { building = before ++ behind } })
abandoned-Simulates b before behind m f e o =
    let left = record f { building = before ++ behind } in
    let o' =
      IsOwned-held m (in_flow f) (also b (in_flow left)) (held-without f b before behind e) o in
    (
      put-IsOwned b m (in_flow left) o',
      subst (LineStep (lines_in m.cell f))
          (ap (λ ls. record (lines_in m.cell f) { building = ls })
              (sym (map-append m.cell before behind))
            ∙ sym (lines_in-put b m left (not_held m b (in_flow left) o')))
          (line_abandoned (m.cell b) (map m.cell before) (map m.cell behind)
            (lines-split m.cell b before behind f.building e)),
    )

began-Simulates :
    (m : Memory) (f : Flow ℕ)
    → Simulates
        (record { memory = m; flow = f })
        (record { memory = (get m).1; flow = record f { building = (get m).0 ∷ f.building } })
unfolding get
began-Simulates m f o =
    let held = in_flow f in
    let b = (get m).0 in
    let o' = get-IsOwned m held o in
    (
      IsOwned-held (get m).1 (also b held) (in_flow (record f { building = b ∷ f.building }))
          (λ p. omega arith) o',
      subst (LineStep (lines_in m.cell f))
          (with_line-eq m.cell b [] f (not_held (get m).1 b held o')
            ∙ ap (λ cell. lines_in cell (record f { building = b ∷ f.building }))
                (sym (get_from-cell m.pool m)))
          line_began,
    )

appended-Simulates :
    (piece : Bytes) (b : ℕ) (before behind : List ℕ) (m : Memory) (f : Flow ℕ)
    → f.building ≡ before ++ b ∷ behind
    → Simulates
        (record { memory = m; flow = f })
        (record { memory = append_to b piece m; flow = f })
unfolding append_to store
appended-Simulates piece b before behind m f e o =
    let left = in_flow (record f { building = before ++ behind }) in
    let o' = IsOwned-held m (in_flow f) (also b left) (held-without f b before behind e) o in
    (
      store-IsOwned b (m.cell b ++ piece) m (in_flow f) o,
      subst (LineStep (lines_in m.cell f))
          (appended-line m.cell b (m.cell b ++ piece) before behind f e (not_held m b left o'))
          (line_appended piece (m.cell b) (map m.cell before) (map m.cell behind)
            (lines-split m.cell b before behind f.building e)),
    )

other_than_next :
    (m : Memory) (b : ℕ) (held : ℕ → ℕ) → IsOwned m (also b held) → (b == m.next) ≡ false
other_than_next m b held o = elim (Bool-cases (b == m.next)) [
  | inl same ↦
      absurd (ground (arith, o.allocated b (omega (arith, (==_iff b m.next).0 same)), self b))
  | inr other ↦ other
]

copied-Simulates :
    (b : ℕ) (before behind : List ℕ) (m : Memory) (f : Flow ℕ)
    → f.building ≡ before ++ b ∷ behind
    → Simulates
        (record { memory = m; flow = f })
        (record {
          memory = (copy_out b m).1;
          flow = record f { building = before ++ behind; in_hand = (copy_out b m).0 ∷ f.in_hand };
        })
unfolding copy_out allocate
copied-Simulates b before behind m f e o =
    let left = record f { building = before ++ behind } in
    let o' =
      IsOwned-held m (in_flow f) (also b (in_flow left)) (held-without f b before behind e) o in
    (
      IsOwned-held (copy_out b m).1 (also (copy_out b m).0 (in_flow left)) _ (λ p. omega arith)
          (copy_out-IsOwned b m (in_flow left) o'),
      subst (LineStep (lines_in m.cell f))
          (ap
              (λ ls. record (lines_in m.cell f) {
                building = ls;
                in_hand = m.cell b ∷ map m.cell f.in_hand;
              })
              (sym (map-append m.cell before behind))
            ∙ copied-line m b left (omega (arith, o'.allocated m.next (omega arith)))
                (not_held m b (in_flow left) o') (other_than_next m b (in_flow left) o'))
          (line_copied (m.cell b) (map m.cell before) (map m.cell behind)
            (lines-split m.cell b before behind f.building e)),
    )

deliver-IsOwned :
    (msg : ℕ) (bytes : Bytes) (m : Memory) (f : Flow ℕ)
    → IsOwned m (also msg (in_flow f))
    → IsOwned m (in_flow (deliver msg bytes f))
deliver-IsOwned msg bytes m f o = elim (Bool-cases (has_room f.capacity (length f.queued))) [
  | inl room ↦
      unfold deliver in
      rw room (
        IsOwned-held m (also msg (in_flow f)) (in_flow (record f { queued = f.queued ++ msg ∷ [] }))
          (λ p. omega (arith, count-append p f.queued (msg ∷ []))) o)
  | inr full ↦
      unfold deliver in
      rw full record {
        once = λ p. omega (arith, o.once p);
        allocated = λ p h. omega (arith, o.allocated p h);
        small = o.small;
      }
]

delivered-Simulates :
    (msg : ℕ) (before behind : List ℕ) (m : Memory) (f : Flow ℕ)
    → f.in_hand ≡ before ++ msg ∷ behind
    → Simulates
        (record { memory = m; flow = f })
        (record {
          memory = m;
          flow = deliver msg (m.cell msg) (record f { in_hand = before ++ behind });
        })
delivered-Simulates msg before behind m f e o =
    let left = record f { in_hand = before ++ behind } in
    (
      deliver-IsOwned msg (m.cell msg) m left (
          IsOwned-held m (in_flow f) (also msg (in_flow left))
            (λ p. omega (arith, count-middle p msg before behind, ap (count p) e)) o),
      subst (LineStep (lines_in m.cell f))
          (ap
              (λ ls.
                deliver (m.cell msg) (m.cell msg) (record (lines_in m.cell f) { in_hand = ls }))
              (sym (map-append m.cell before behind))
            ∙ lines_in-deliver msg m.cell left)
          (line_delivered (m.cell msg) (map m.cell before) (map m.cell behind)
            (lines-split m.cell msg before behind f.in_hand e)),
    )

worked-Simulates :
    (msg : ℕ) (rest : List ℕ) (m : Memory) (f : Flow ℕ)
    → f.queued ≡ msg ∷ rest
    → Simulates
        (record { memory = m; flow = f })
        (record {
          memory = put msg m;
          flow = record f { queued = rest; written = f.written ++ m.cell msg ∷ [] };
        })
worked-Simulates msg rest m f e o =
    let left = record f { queued = rest; written = f.written ++ m.cell msg ∷ [] } in
    let o' =
      IsOwned-held m (in_flow f) (also msg (in_flow left)) (λ p. omega (arith, ap (count p) e)) o in
    (
      put-IsOwned msg m (in_flow left) o',
      subst (LineStep (lines_in m.cell f))
          (sym (lines_in-put msg m left (not_held m msg (in_flow left) o')))
          (line_worked (m.cell msg) (map m.cell rest) (ap (map m.cell) e)),
    )

pub Step-Simulates : {s s' : Machine} → Step s s' → Simulates s s'
Step-Simulates (began {m} {f}) = began-Simulates m f
Step-Simulates (appended piece b before behind {m} {f} e) =
    appended-Simulates piece b before behind m f e
Step-Simulates (abandoned b before behind {m} {f} e) = abandoned-Simulates b before behind m f e
Step-Simulates (copied b before behind {m} {f} e) = copied-Simulates b before behind m f e
Step-Simulates (delivered msg before behind {m} {f} e) = delivered-Simulates msg before behind m f e
Step-Simulates (worked msg rest {m} {f} e) = worked-Simulates msg rest m f e
