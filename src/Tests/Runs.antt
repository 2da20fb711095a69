-- ===== src/Tests/Runs.antt =====
-- Runs of the process.
use open_blocklist.Base.{ℕ, Bytes, codes, none, some, Bool, true, [], ◌∷◌, ◌++◌, str_eq, ◌≡◌, refl}
use open_blocklist.Base.Int.{ℤ, pos}
use open_blocklist.Base.Dict.{lookup}
use open_blocklist.Ipv4.{is_ipv4, ipv4_str_to_uint32, scan, uint32_to_ipv4_bytes}
use open_blocklist.Key.{v4_in_v6}
use open_blocklist.State.{App, BlockEntry, expire_ip, is_expired}
use open_blocklist.Http.{Request, put}
use open_blocklist.Write.{handle_put, handle_put_network}
use open_blocklist.Expiry.{expiration_round}
use open_blocklist.System.{
  IsConsistent, run_task, Reaches, here, further, was_put, round_ended, network_put,
}
use open_blocklist.System.Race.{put_over_expired_lost}
use open_blocklist.Tests.Toy.{toy, empty_app}

abbrev t : ℕ → ℤ
t n = pos 1000

abbrev request : Request
request = record {
  method = put;
  ip = codes "203.0.113.200";
  net = codes "10.0.0.0";
  prefix = codes "8";
  query = [];
}

abbrev parsed : Bytes
parsed = v4_in_v6 ++ (203 ∷ 0 ∷ 113 ∷ 200 ∷ [])

ip-parsed : toy.parse_ip request.ip ≡ some parsed
unfolding is_ipv4 ipv4_str_to_uint32 scan str_eq uint32_to_ipv4_bytes
ip-parsed = refl

abbrev old : BlockEntry
old = record {
  ip = codes "203.0.113.200";
  source = codes "openbl";
  scenario = [];
  action = codes "ban";
  create_revision = pos 0;
  mod_revision = pos 0;
  first_seen = pos 10;
  last_seen = pos 10;
  expiration = pos 500;
  return_code = 2130706434;
}

abbrev app : App
app = record empty_app { ip_table = (codes "203.0.113.200", old) ∷ [] }

app-IsConsistent : IsConsistent app
app-IsConsistent = record { once = (unfold lookup in refl, tt); named = (refl, tt); keyed = tt }

abbrev within : Bytes → Bytes → Bool
within zone name = true

-- A PUT, a PUT of a network and a round of the worker.
abbrev last : App
last =
    expiration_round toy (pos 2000)
      (handle_put_network toy t request (handle_put toy t request app).0).0

a_run : Reaches toy within app last
a_run =
    further (further (further here (was_put t request)) (network_put t request))
      (round_ended (pos 2000))

put_over_expired_lost_example :
    ((handle_put toy t request app).0.tasks ≡ app.tasks ++ expire_ip request.ip ∷ [])
    × (lookup request.ip
          (run_task toy (expire_ip request.ip) (handle_put toy t request app).0).ip_table
        ≡ none)
put_over_expired_lost_example =
    put_over_expired_lost toy t request parsed old app (ip-parsed) (unfold lookup str_eq in refl)
      (unfold is_expired in refl) refl
