-- ===== src/Tests/Toy.antt =====
-- A small instance of the parts of Go's library: addresses are IPv4 only, a network contains what its
-- mask is a prefix of, records are written as numbers with the lengths of their texts.
use open_blocklist.Base.{
  ℕ, zero, suc, Bytes, none, some, Bool, true, false, [], ◌∷◌, ◌++◌, map, length, take, drop,
  take-length_append, drop-length_append, contains, has_prefix, join, if◌then◌else◌, ◌≡◌, refl,
}
use open_blocklist.Base.Int.{ℤ, pos, negsuc}
use open_blocklist.Ipv4.{is_ipv4, ipv4_str_to_uint32, decimal, uint32_to_ipv4_bytes}
use open_blocklist.Key.{v4_in_v6}
use open_blocklist.State.{App, BlockRecord, Go, zero_stats}

abbrev write_int : ℤ → Bytes
write_int (pos n) = 0 ∷ n ∷ []
write_int (negsuc n) = 1 ∷ n ∷ []

abbrev read_int : Bytes → ℤ × Bytes
read_int [] = (pos 0, [])
read_int (_ ∷ []) = (pos 0, [])
read_int (zero ∷ n ∷ rest) = (pos n, rest)
read_int (suc _ ∷ n ∷ rest) = (negsuc n, rest)

abbrev write_text : Bytes → Bytes
write_text s = length s ∷ s

abbrev read_text : Bytes → Bytes × Bytes
read_text [] = ([], [])
read_text (n ∷ rest) = (take n rest, drop n rest)

abbrev pub marshal : BlockRecord → Bytes
marshal r =
    r.version ∷ r.ttl ∷ write_text r.host
    ++ (write_text r.source
        ++ (write_text r.scenario
            ++ (write_text r.action
                ++ (write_int r.first_seen
                    ++ (write_int r.last_seen ++ (write_int r.expiration ++ []))))))

abbrev first_of : Bytes → ℕ
first_of [] = 0
first_of (n ∷ rest) = n

abbrev pub unmarshal : Bytes → BlockRecord × Bool
unmarshal s =
    let (host, s1) = read_text (drop 2 s) in
    let (source, s2) = read_text s1 in
    let (scenario, s3) = read_text s2 in
    let (action, s4) = read_text s3 in
    let (first_seen, s5) = read_int s4 in
    let (last_seen, s6) = read_int s5 in
    let (expiration, s7) = read_int s6 in
    (
      record {
        version = first_of (take 1 s);
        ttl = first_of (drop 1 s);
        host = host;
        source = source;
        scenario = scenario;
        action = action;
        first_seen = first_seen;
        last_seen = last_seen;
        expiration = expiration;
      },
      true,
    )

read-write_text : (s rest : Bytes) → read_text (write_text s ++ rest) ≡ (s, rest)
read-write_text s rest = rw (take-length_append s rest, drop-length_append s rest) refl

read-write_int : (i : ℤ) (rest : Bytes) → read_int (write_int i ++ rest) ≡ (i, rest)
read-write_int (pos n) rest = refl
read-write_int (negsuc n) rest = refl

pub unmarshal-marshal : (r : BlockRecord) → unmarshal (marshal r) ≡ (r, true)
unmarshal-marshal r = simp (take-length_append, drop-length_append, read-write_int)

abbrev last_four : Bytes → Bytes
last_four ip = drop 12 ip

-- A reference to read dotted texts, and to print the last four bytes.
abbrev four : ℕ → Bytes
four n = let q = uint32_to_ipv4_bytes n in q.b0 ∷ q.b1 ∷ q.b2 ∷ q.b3 ∷ []

abbrev pub toy : Go
toy = record {
  parse_ip = λ s. if is_ipv4 s then some (v4_in_v6 ++ four (ipv4_str_to_uint32 s)) else none;
  ip_string = λ ip. join (map decimal (drop 12 ip)) b'.';
  parse_cidr = λ s. if contains s b'/' then some (record { ip = s; mask = v4_in_v6 }) else none;
  net_string = λ n. n.ip;
  net_contains = λ n ip. has_prefix ip n.mask;
  parse_time = λ s. some (pos (length s));
  parse_duration = λ s. if contains s b'h' then some (pos 3600000000000) else none;
  unix_after = λ now d. pos 7200;
  format_time = λ t. write_int t;
  duration_string = λ d. write_int d;
  format_int = λ n. write_int n;
  marshal_record = marshal;
  marshal_ptr = λ p. p.host;
  unmarshal_record = unmarshal;
  unmarshal_watch = λ s. some (record { revision = s; events = [] });
  unmarshal_range = λ s. ([], s);
  parse_int = λ s. (pos (length s), true);
  b64 = λ s. s;
  b64d = λ s. s;
}

abbrev pub empty_app : App
empty_app = record {
  ip_table = [];
  cidr_table = [];
  stats = zero_stats;
  revision = pos 0;
  multi_instance = false;
  requests = [];
  tasks = [];
}
