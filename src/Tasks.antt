-- ===== src/Tasks.antt =====
-- main.go and cidr.go: the goroutines that a lookup starts, which delete what it found expired.
use open_blocklist.Base.{
  ℕ, Bytes, Option, none, some, true, List, [], ◌∷◌, ◌++◌, append-nil, append_assoc, All,
  All-append, ◌≡◌, refl, sym, ap, ◌∙◌, Bool-cases, inl, inr, Bool, false, if◌then◌else◌,
}
use open_blocklist.Base.Int.{ℤ}
use open_blocklist.Base.Dict.{lookup}
use open_blocklist.State.{
  App, BlockEntry, CidrEntry, Go, Task, expire_ip, expire_cidr, is_expired, spawn,
}
use open_blocklist.IpTable.{fresh_entry, ip_table_lookup}
use open_blocklist.CidrTable.{scan_nets, cidr_table_lookup}

module _ (t : ℕ → ℤ) where
  abbrev pub IsOver : ℤ → Type 0
  IsOver expiration = (i : ℕ) × (is_expired expiration (t i) ≡ true)

  -- A goroutine for an entry of the tables that has expired at a reading of the clock.
  abbrev pub IsDue : App → Task → Type 0
  IsDue app (expire_ip ip) =
      (e : BlockEntry) × (lookup ip app.ip_table ≡ some e) × IsOver e.expiration
  IsDue app (expire_cidr cidr) =
      (e : CidrEntry) × (before behind : List CidrEntry) × (app.cidr_table ≡ before ++ (e ∷ behind))
      × (e.cidr ≡ cidr)
      × IsOver e.expiration

  -- What is started on the way from one state to another is due in the first one.
  pub record StartsDue (app app' : App) : Type 0 where
    pub started : List Task
    pub tasks : app'.tasks ≡ app.tasks ++ started
    pub due : All (IsDue app) started

  pub none_started : (app app' : App) → app'.tasks ≡ app.tasks → StartsDue app app'
  none_started app app' same = record {
    started = [];
    tasks = same ∙ sym (append-nil app.tasks);
    due = tt;
  }

  pub with_same_tasks : (app a b : App) → b.tasks ≡ a.tasks → StartsDue app a → StartsDue app b
  with_same_tasks app a b same s = record {
    started = s.started;
    tasks = same ∙ s.tasks;
    due = s.due;
  }

  pub if-StartsDue :
      {B : Type 0} (app : App) (b : Bool) (x y : App × B)
      → StartsDue app x.0
      → StartsDue app y.0
      → StartsDue app (if b then x else y).0
  if-StartsDue app true x y s s' = s
  if-StartsDue app false x y s s' = s'

  -- Two lookups, of which the first leaves the tables alone.
  pub also_started :
      (app a b : App)
      → a.ip_table ≡ app.ip_table
      → a.cidr_table ≡ app.cidr_table
      → StartsDue app a
      → StartsDue a b
      → StartsDue app b
  also_started app a b ips nets s s' = record {
    started = s.started ++ s'.started;
    tasks =
        s'.tasks
        ∙ ap (λ ts. ts ++ s'.started) s.tasks
        ∙ append_assoc app.tasks s.started s'.started;
    due = All-append (IsDue app) s.started s'.started s.due (due_before s'.started s'.due);
  }
    where
      due_before : (ts : List Task) → All (IsDue a) ts → All (IsDue app) ts
      due_before [] d = tt
      due_before (expire_ip ip ∷ ts) ((e, found, over), d) =
          ((e, ap (lookup ip) (sym ips) ∙ found, over), due_before ts d)
      due_before (expire_cidr c ∷ ts) ((e, before, behind, split, named, over), d) =
          ((e, before, behind, sym nets ∙ split, named, over), due_before ts d)

  fresh_entry-StartsDue :
      (i : ℕ) (ip : Bytes) (found : Option BlockEntry) (app : App)
      → lookup ip app.ip_table ≡ found
      → StartsDue app (fresh_entry (t i) ip found app).0
  unfolding fresh_entry spawn
  fresh_entry-StartsDue i ip none app at = none_started app app refl
  fresh_entry-StartsDue i ip (some e) app at = elim (Bool-cases (is_expired e.expiration (t i))) [
    | inl over ↦
        rw over record { started = expire_ip ip ∷ []; tasks = refl; due = ((e, at, (i, over)), tt) }
    | inr live ↦ rw live (none_started app app refl)
  ]

  pub ip_table_lookup-StartsDue :
      (i : ℕ) (ip : Bytes) (app : App) → StartsDue app (ip_table_lookup (t i) ip app).0
  unfolding ip_table_lookup
  ip_table_lookup-StartsDue i ip app = fresh_entry-StartsDue i ip (lookup ip app.ip_table) app refl

  scan_nets-IsDue :
      (go : Go) (i : ℕ) (ip : Bytes) (app : App) (before es : List CidrEntry)
      → app.cidr_table ≡ before ++ es
      → All (IsDue app) (scan_nets go (t i) ip es).1
  unfolding scan_nets
  scan_nets-IsDue go i ip app before [] at = tt
  scan_nets-IsDue go i ip app before (e ∷ es) at =
      let rest =
        scan_nets-IsDue go i ip app (before ++ e ∷ []) es
          (at ∙ sym (append_assoc before (e ∷ []) es)) in
      elim (Bool-cases (go.net_contains e.net ip)) [
        | inl inside ↦ elim (Bool-cases (is_expired e.expiration (t i))) [
          | inl over ↦ rw (inside, over) ((e, before, es, at, refl, (i, over)), tt)
          | inr live ↦ rw (inside, live) tt
        ]
        | inr outside ↦ rw outside rest
      ]

  pub cidr_table_lookup-StartsDue :
      (go : Go) (i : ℕ) (ip : Bytes) (app : App)
      → StartsDue app (cidr_table_lookup go (t i) ip app).0
  unfolding cidr_table_lookup
  cidr_table_lookup-StartsDue go i ip app = record {
    started = (scan_nets go (t i) ip app.cidr_table).1;
    tasks = refl;
    due = scan_nets-IsDue go i ip app [] app.cidr_table refl;
  }
