-- ===== src/CidrTable/Replay.antt =====
-- cidr.go: the slice as the map from texts to networks that it stands for.
use open_blocklist.Base.{
  Bytes, Option, none, some, List, [], ◌∷◌, str_eq, if◌then◌else◌, ◌≡◌, refl, ap, ◌∙◌,
}
use open_blocklist.State.{CidrEntry}
use open_blocklist.CidrTable.{find_by_cidr, upsert, remove}
use open_blocklist.CidrTable.Laws.{
  IsKeyed, upsert-IsKeyed, remove-IsKeyed, find_by_cidr-upsert, find_by_cidr-remove,
}

-- A change of the table.
pub data Change : Type 0 where
  put_entry : CidrEntry → Change
  remove_cidr : Bytes → Change

unfoldable pub change : Change → List CidrEntry → List CidrEntry
change (put_entry e) es = upsert e es
change (remove_cidr cidr) es = remove cidr es

unfoldable pub change_all : List Change → List CidrEntry → List CidrEntry
unfolding change
change_all [] es = es
change_all (c ∷ cs) es = change_all cs (change c es)

-- The map, and the same changes of it.
abbrev pub View : Type 0
View = Bytes → Option CidrEntry

abbrev pub update : Change → View → View
update (put_entry e) m k = if str_eq e.cidr k then some e else m k
update (remove_cidr cidr) m k = if str_eq cidr k then none else m k

abbrev pub update_all : List Change → View → View
update_all [] m = m
update_all (c ∷ cs) m = update_all cs (update c m)

change-IsKeyed : (c : Change) (es : List CidrEntry) → IsKeyed es → IsKeyed (change c es)
unfolding change
change-IsKeyed (put_entry e) es h = upsert-IsKeyed e es h
change-IsKeyed (remove_cidr cidr) es h = remove-IsKeyed cidr es h

find-change :
    (c : Change) (es : List CidrEntry) (m : View)
    → IsKeyed es
    → ((k : Bytes) → find_by_cidr k es ≡ m k)
    → (k : Bytes) → find_by_cidr k (change c es) ≡ update c m k
unfolding change
find-change (put_entry e) es m h same k =
    find_by_cidr-upsert e k es ∙ ap (λ o. if str_eq e.cidr k then some e else o) (same k)
find-change (remove_cidr cidr) es m h same k =
    find_by_cidr-remove cidr k es h ∙ ap (λ o. if str_eq cidr k then none else o) (same k)

find-change_all :
    (cs : List Change) (es : List CidrEntry) (m : View)
    → IsKeyed es
    → ((k : Bytes) → find_by_cidr k es ≡ m k)
    → (IsKeyed (change_all cs es))
      × ((k : Bytes) → find_by_cidr k (change_all cs es) ≡ update_all cs m k)
unfolding change_all
find-change_all [] es m h same = (h, same)
find-change_all (c ∷ cs) es m h same =
    find-change_all cs (change c es) (update c m) (change-IsKeyed c es h)
      (find-change c es m h same)

-- Any sequence of upserts and removals of networks on the empty slice does what it does on the empty
-- map from texts to entries: the slice finds under each text what the map holds there, although a
-- removal moves the last entry into the gap, and it holds no text twice.
pub change_all-refines :
    (cs : List Change)
    → IsKeyed (change_all cs [])
      × ((k : Bytes) → find_by_cidr k (change_all cs []) ≡ update_all cs (λ _. none) k)
change_all-refines cs = find-change_all cs [] (λ _. none) tt (λ k. unfold find_by_cidr in refl)
