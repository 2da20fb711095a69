-- ===== src/Tests/Tables.antt =====
-- The tables, their expiry and the decisions of CrowdSec.
use open_blocklist.Base.{
  ℕ, Bytes, codes, none, ◌&&◌, List, [], ◌∷◌, ◌++◌, has_prefix, if◌then◌else◌, ◌≡◌, refl, arith,
}
use open_blocklist.Base.Int.{ℤ, pos}
use open_blocklist.Base.Dict.{lookup}
use open_blocklist.Key.{v4_in_v6}
use open_blocklist.State.{App, BlockEntry, CidrEntry, IpNet, is_expired, expire_cidr}
use open_blocklist.CidrTable.{find_by_cidr, scan_nets}
use open_blocklist.CidrTable.Laws.{IsKeyed}
use open_blocklist.CidrTable.Scan.{expired_match_hides}
use open_blocklist.Read.{is_valid_ip}
use open_blocklist.Expiry.{expiration_round}
use open_blocklist.Expiry.Laws.{gone, network_gone, expiration_round_exact}
use open_blocklist.CrowdSec.{Decision, DecisionStream, Clock}
use open_blocklist.CrowdSec.Remove.{cs_values, crowd_sec_reconcile}
use open_blocklist.CrowdSec.Remove.Stale.{NoneStale}
use open_blocklist.CrowdSec.Remove.Reconciled.{reconcile-NoneStale}
use open_blocklist.Tests.Toy.{toy, empty_app}

abbrev now : ℤ
now = pos 1000

abbrev all_v4 : IpNet
all_v4 = record { ip = []; mask = v4_in_v6 }

abbrev entry : Bytes → ℤ → CidrEntry
entry cidr expiration = record {
  cidr = cidr;
  net = all_v4;
  source = codes "openbl";
  scenario = [];
  action = codes "ban";
  return_code = 2130706434;
  first_seen = pos 10;
  last_seen = pos 10;
  expiration = expiration;
}

abbrev ip : Bytes
ip = v4_in_v6 ++ (10 ∷ 1 ∷ 2 ∷ 3 ∷ [])

abbrev ten : CidrEntry
ten = entry (codes "10.0.0.0/8") (pos 2000)

abbrev old : CidrEntry
old = entry (codes "10.1.0.0/16") (pos 500)

abbrev networks : List CidrEntry
networks = old ∷ ten ∷ []

networks-IsKeyed : IsKeyed networks
networks-IsKeyed = ((grind arith, tt), (tt, tt))

abbrev elsewhere : CidrEntry
elsewhere = record ten { net = record { ip = []; mask = 1 ∷ [] } }

abbrev blocked : Bytes → ℤ → BlockEntry
blocked ip expiration = record {
  ip = ip;
  source = codes "openbl";
  scenario = [];
  action = codes "ban";
  create_revision = pos 0;
  mod_revision = pos 0;
  first_seen = pos 10;
  last_seen = pos 10;
  expiration = expiration;
  return_code = 2130706434;
}

abbrev app : App
app = record empty_app {
  ip_table = (codes "10.0.0.1", blocked (codes "10.0.0.1") (pos 500)) ∷ [];
  cidr_table = networks;
}

abbrev decision : Decision
decision = record {
  value = codes "10.9.0.0/16";
  kind = codes "ban";
  origin = codes "cscli";
  scenario = codes "ssh";
  duration = codes "1h";
}

abbrev clocks : ℕ → Clock
clocks n = record { expiry = now; now = now; lookup = now }

abbrev stream : DecisionStream
stream = record { new = decision ∷ []; deleted = [] }

expired_match_hides_example :
    scan_nets toy now ip ((elsewhere ∷ []) ++ old ∷ (ten ∷ [])) ≡ (none, expire_cidr old.cidr ∷ [])
expired_match_hides_example =
    expired_match_hides toy now ip (elsewhere ∷ []) old (ten ∷ []) (unfold has_prefix in (refl, tt))
      (unfold has_prefix in refl) (unfold is_expired in refl)

expiration_round_exact_example :
    ((k : Bytes)
      → lookup k (expiration_round toy now app).ip_table ≡ (
          if gone now (lookup k app.ip_table) && is_valid_ip toy k
          then none
          else lookup k app.ip_table))
    × ((k : Bytes)
        → find_by_cidr k (expiration_round toy now app).cidr_table ≡ (
            if network_gone now (find_by_cidr k app.cidr_table)
            then none
            else find_by_cidr k app.cidr_table))
expiration_round_exact_example =
    expiration_round_exact toy now app (unfold lookup in refl, tt) (networks-IsKeyed)

reconcile-NoneStale_example :
    NoneStale (cs_values toy stream.new) (crowd_sec_reconcile toy clocks stream app)
reconcile-NoneStale_example =
    reconcile-NoneStale toy clocks stream app refl (unfold lookup in refl, tt) (networks-IsKeyed)
