-- ===== src/System/Converges.antt =====
-- An address that one instance blocks, at an instance whose watch is connected again and again.
use open_blocklist.Base.{
  ℕ, suc, ◌+◌, ◌<◌, ◌^◌, Bytes, some, none, Bool, true, false, List, [], ◌∷◌, ◌++◌, All, str_eq,
  str_eq_refl, if◌then◌else◌, ◌≡◌, ◌≢◌, refl, sym, ap, ◌∙◌, false≢true,
}
use mathlib.Core.Option.{none-ne-some}
use open_blocklist.Base.Int.{ℤ, pos}
use open_blocklist.Base.Dict.{lookup}
use open_blocklist.State.{App, BlockEntry, BlockRecord, Go, EtcdRequest, kv_put, is_expired}
use open_blocklist.Http.{Request, entry_body}
use open_blocklist.Read.{handle_auth}
use open_blocklist.Read.Agree.{handle_auth_status, listed_entry}
use open_blocklist.Write.{handle_put, block_record}
use open_blocklist.Etcd.{WatchRequest}
use open_blocklist.Etcd.Mirror.{parsed_quad, dotted-nonempty}
use open_blocklist.Etcd.Replica.{
  Address, IsAddress, text_of, key_of, Change, put_at, delete_at, elsewhere, View, update,
  update_all, revised, event_for,
}
use open_blocklist.Etcd.Reconnect.{Connection, watch_loop}
use open_blocklist.Etcd.Reconnect.History.{changes, upto, Ascending}
use open_blocklist.Etcd.Reconnect.Watched.{IsStep, Serves, ServesAll}
use open_blocklist.Etcd.Reconnect.Entries.{entries, update_all-append, watch_loop-catches_up}
use open_blocklist.System.Elsewhere.{event_of, put_posts}

-- A change that is not one of the address.
abbrev pub IsApart : Address → ℕ × Change → Type 0
IsApart x (n, put_at y e cr mr) = str_eq (text_of y) (text_of x) ≡ false
IsApart x (n, delete_at y) = str_eq (text_of y) (text_of x) ≡ false
IsApart x (n, elsewhere ev) = Unit

update-other :
    (x : Address) (n : ℕ) (c : Change) (m : View)
    → IsApart x (n, c)
    → update c m (text_of x) ≡ m (text_of x)
update-other x n (put_at y e cr mr) m h = rw h refl
update-other x n (delete_at y) m h = rw h refl
update-other x n (elsewhere ev) m h = refl

pub update_all-others :
    (x : Address) (h : List (ℕ × Change)) (m : View)
    → All (IsApart x) h
    → update_all (changes h) m (text_of x) ≡ m (text_of x)
update_all-others x [] m o = refl
update_all-others x ((n, c) ∷ h) m (o, os) =
    update_all-others x h (update c m) os ∙ update-other x n c m o

changes-append : (g h : List (ℕ × Change)) → changes (g ++ h) ≡ changes g ++ changes h
changes-append [] h = refl
changes-append ((n, c) ∷ g) h = ap (λ cs. c ∷ cs) (changes-append g h)

-- The last change of an address decides what is found under it.
last-decides :
    (x : Address) (e : BlockEntry) (cr mr : ℤ) (i : ℕ) (before later : List (ℕ × Change)) (m : View)
    → All (IsApart x) later
    → update_all (changes (before ++ (i, put_at x e cr mr) ∷ later)) m (text_of x)
      ≡ some (revised x e cr mr)
last-decides x e cr mr i before later m others =
    ap (λ cs. update_all cs m (text_of x)) (changes-append before ((i, put_at x e cr mr) ∷ later))
    ∙ ap (λ (v : View). v (text_of x))
        (update_all-append (changes before) (put_at x e cr mr ∷ changes later) m)
    ∙ update_all-others x later (update (put_at x e cr mr) (update_all (changes before) m)) others
    ∙ rw (str_eq_refl (text_of x)) refl

module _ (go : Go) (decode_encode : (s : Bytes) → go.b64d (go.b64 s) ≡ s)
    (unmarshal_marshal : (r : BlockRecord) → go.unmarshal_record (go.marshal_record r) ≡ (r, true))
    (reads : (y : Address)
      → IsAddress y
      → go.parse_ip (text_of y) ≡ some (parsed_quad y.a y.b y.c y.d)) where
  pub readable : (y : Address) → IsAddress y → go.parse_ip (text_of y) ≢ none
  readable y h n = absurd (none-ne-some _ (sym n ∙ reads y h))

  found-forbids :
      (x : Address) (t : ℕ → ℤ) (r : Request) (app : App) (e : BlockEntry)
      → IsAddress x
      → r.ip ≡ text_of x
      → lookup (text_of x) app.ip_table ≡ some e
      → is_expired e.expiration (t 0) ≡ false
      → (handle_auth go t r app).1.status ≡ 403
  unfolding str_eq
  found-forbids x t r app e hx at found live =
      let nonempty : r.ip ≢ [] = λ n.
        false≢true (sym (dotted-nonempty x.a x.b x.c x.d) ∙ ap (λ s. str_eq s []) (sym at ∙ n)) in
      handle_auth_status go t r (parsed_quad x.a x.b x.c x.d) app nonempty
        (ap go.parse_ip at ∙ reads x hx)
      ∙ ap (λ (b : Bool). if b then 403 else 200)
          (listed_entry go t r.ip (parsed_quad x.a x.b x.c x.d) app e
            (ap (λ k. lookup k app.ip_table) at ∙ found) live)

  -- If base64 and JSON decode what they encoded and net.ParseIP reads the dotted text of every
  -- address as that address: a PUT on the address x that is answered with 200 and the entry `e`, in
  -- either mode, posts a request to etcd whose event is that of the change (x, `e`). Let this
  -- change stand in etcd's history of changes, with later ones only of other IPv4 addresses or of
  -- keys from which the watch reads no address (the key of an IPv6 address whose last four digits are
  -- decimal is read as an IPv4 address), and let another instance follow this history with its watch
  -- of the addresses, from the table of a revision, through any number of connections that break,
  -- none of them while a change is left unsent whose revision has been announced, and then one on
  -- which all is sent, with no line of its other watch in between. Then it forbids x (403), at every
  -- time at which `e` has not expired.
  pub put_converges :
      (x : Address) (t t' : ℕ → ℤ) (r r' : Request) (app follower : App) (e : BlockEntry)
      (cr mr : ℤ)
      → IsAddress x
      → r.ip ≡ text_of x
      → r'.ip ≡ text_of x
      → (handle_put go t r app).1.status ≡ 200
      → (handle_put go t r app).1.body ≡ entry_body e
      → is_expired e.expiration (t' 0) ≡ false
      → (before later : List (ℕ × Change)) (i : ℕ) → All (IsApart x) later
      → (etcd : ℕ → WatchRequest → Connection) (n rev base : ℕ) (m : View)
      → ((j : ℕ)
          → Serves go
              (entries go decode_encode unmarshal_marshal readable)
              (before ++ (i, put_at x e cr mr) ∷ later)
              (etcd j))
      → ServesAll go
          (entries go decode_encode unmarshal_marshal readable)
          (before ++ (i, put_at x e cr mr) ∷ later)
          (etcd n)
      → Ascending base (before ++ (i, put_at x e cr mr) ∷ later)
      → All
          (IsStep go (entries go decode_encode unmarshal_marshal readable))
          (before ++ (i, put_at x e cr mr) ∷ later)
      → 0 < rev
      → rev + 1 < 2 ^ 63
      → follower.revision ≡ pos rev
      → ((k : Bytes)
          → lookup k follower.ip_table
            ≡ update_all (upto rev (before ++ (i, put_at x e cr mr) ∷ later)) m k)
      → (posted reverse : EtcdRequest) × ((handle_put go t r app).0.requests
          ≡ app.requests ++ (posted ∷ reverse ∷ []))
        × (event_for go (put_at x e cr mr) ≡ event_of cr mr posted)
        × ((handle_auth go t' r' (watch_loop go etcd (suc n) follower)).1.status ≡ 403)
  put_converges x t t' r r' app follower e cr mr hx at at' done body live before later i others etcd
        n rev base m serves all asc steps positive fits known same =
      let (reverse, requests) = put_posts go x.a x.b x.c x.d (reads x hx) t r app e at done body in
      (
        kv_put (go.b64 (key_of x)) (go.b64 (go.marshal_record (block_record e))),
        reverse,
        requests,
        refl,
        found-forbids x t' r' (watch_loop go etcd (suc n) follower) (revised x e cr mr) hx at'
            (watch_loop-catches_up go decode_encode unmarshal_marshal readable
                (before ++ (i, put_at x e cr mr) ∷ later) etcd n rev base m follower serves all asc
                steps positive fits known same (text_of x)
              ∙ last-decides x e cr mr i before later m others)
            live,
      )
