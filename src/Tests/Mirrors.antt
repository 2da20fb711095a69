-- ===== src/Tests/Mirrors.antt =====
-- Events and loads from etcd.
use open_blocklist.Base.{
  ◌+◌, codes, none, some, List, [], ◌∷◌, ◌++◌, Bytes, map, str_eq, ◌≡◌, refl, arith, contains,
}
use open_blocklist.Base.Int.{pos}
use open_blocklist.Base.Dict.{lookup}
use open_blocklist.Key.{v4_in_v6}
use open_blocklist.State.{BlockEntry, CidrEntry, Go}
use open_blocklist.Etcd.{apply_events, load_kvs}
use open_blocklist.Etcd.Replica.{
  Address, Holding, Change, put_at, delete_at, update_all, hold, kv_of, event_for, replica_follows,
}
use open_blocklist.Etcd.NetworkReplica
use open_blocklist.Etcd.NetworkReplica.{network_replica_follows}
use open_blocklist.Etcd.{apply_cidr_events, load_cidr_kvs}
use open_blocklist.CidrTable.{find_by_cidr}
use open_blocklist.CidrTable.Laws.{IsKeyed}
use open_blocklist.CidrTable.Replay
use open_blocklist.CidrTable.Replay.{put_entry, remove_cidr}
use open_blocklist.Etcd.{cidr_watch_line, watch_request}
use open_blocklist.Etcd.SharedRevision.{network_line_moves_watch}
use open_blocklist.Tests.Toy.{toy, empty_app, unmarshal-marshal}

abbrev blocked : BlockEntry
blocked = record {
  ip = codes "203.0.113.200";
  source = codes "openbl";
  scenario = [];
  action = codes "ban";
  create_revision = pos 0;
  mod_revision = pos 0;
  first_seen = pos 10;
  last_seen = pos 10;
  expiration = pos 500;
  return_code = 2130706434;
}

abbrev network : CidrEntry
network = record {
  cidr = codes "10.0.0.0/8";
  net = record { ip = codes "10.0.0.0/8"; mask = v4_in_v6 };
  source = codes "openbl";
  scenario = [];
  action = codes "ban";
  return_code = 2130706434;
  first_seen = pos 10;
  last_seen = pos 10;
  expiration = pos 500;
}

-- A parser that reads every text.
abbrev reader : Go
reader = record toy { parse_ip = λ s. some s }

abbrev one : Address
one = record { a = 203; b = 0; c = 113; d = 200 }

abbrev two : Address
two = record { a = 198; b = 51; c = 100; d = 7 }

abbrev held : List Holding
held =
    record { address = one; entry = blocked; create_revision = codes "7"; mod_revision = codes "7" }
    ∷ []

abbrev changes : List Change
changes = put_at two blocked (pos 8) (pos 8) ∷ delete_at one ∷ []

replica_follows_example :
    lookup
      (codes "198.51.100.7")
      (apply_events reader
        (map (event_for reader) changes)
        (load_kvs reader (map (kv_of reader) held) empty_app)).ip_table
    ≡ update_all changes (hold reader held (λ _. none)) (codes "198.51.100.7")
replica_follows_example =
    replica_follows reader (λ s. refl) (unmarshal-marshal) (λ x h. grind arith) held changes
      empty_app refl (((omega arith, omega arith, omega arith, omega arith), omega arith), tt)
      (
        ((omega arith, omega arith, omega arith, omega arith), omega arith),
        ((omega arith, omega arith, omega arith, omega arith), tt),
      )
      (codes "198.51.100.7")

abbrev network_changes : List Replay.Change
network_changes =
    put_entry (record network { source = codes "crowdsec" }) ∷ remove_cidr (codes "10.0.0.0/8") ∷ []

network_replica_follows_example :
    IsKeyed
      (apply_cidr_events toy
        (map (NetworkReplica.event_for toy) network_changes)
        (load_cidr_kvs toy (map (NetworkReplica.kv_of toy) (network ∷ [])) empty_app)).cidr_table
    × ((k : Bytes)
        → find_by_cidr k
            (apply_cidr_events toy (map (NetworkReplica.event_for toy) network_changes) (
              load_cidr_kvs toy
                (map (NetworkReplica.kv_of toy) (network ∷ []))
                empty_app)).cidr_table
          ≡ Replay.update_all (map put_entry (network ∷ []) ++ network_changes) (λ _. none) k)
network_replica_follows_example =
    network_replica_follows toy (λ s. refl) (unmarshal-marshal) (network ∷ []) network_changes
      empty_app refl
      (((omega arith, unfold str_eq in refl), unfold contains in refl, omega arith), tt)
      (
        ((omega arith, unfold str_eq in refl), unfold contains in refl, omega arith),
        ((omega arith, unfold str_eq in refl), tt),
      )

network_line_moves_watch_example :
    ((cidr_watch_line toy (codes "12") empty_app).ip_table ≡ empty_app.ip_table)
    × ((watch_request toy
          (codes "/skydns")
          (cidr_watch_line toy (codes "12") empty_app).revision).start_revision
        ≡ some (pos (2 + 1)))
network_line_moves_watch_example =
    network_line_moves_watch toy (codes "12") (record { revision = codes "12"; events = [] }) 2
      empty_app (codes "/skydns") refl (grind arith) refl refl (omega arith) (omega arith)
