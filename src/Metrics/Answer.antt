-- ===== src/Metrics/Answer.antt =====
-- metrics.go: what a reader gets of the answer of metricsHandler.
use open_blocklist.Base.{
  Bytes, codes, Bool, true, ◌&&◌, not, List, [], ◌∷◌, ◌++◌, map, contains, replace_all, Lacks, All,
  All-append, ◌≡◌, refl, arith,
}
use open_blocklist.Base.Int.{ℤ}
use open_blocklist.Base.Dict.{Dict}
use open_blocklist.State.{App, Go}
use open_blocklist.Http.{plain}
use open_blocklist.Metrics.{
  Metric, Build, build_metrics, request_metrics, dns_metrics, endpoint_metrics,
  sanitize_metric_name, runtime_metric_names, SampleValue, uint64, float64, other_kind,
  runtime_metric, runtime_metrics, count_metrics, metrics_of, metrics_text, metrics_handler,
}
use open_blocklist.Metrics.Scrape.{
  plain_name, contains-Lacks, IsPlain, append-Lacks, scrape, scrape-metrics_text,
}

-- A metric whose name and help can be read back, whatever its value.
unfoldable plain_metric : Metric → Bool
unfolding plain_name contains
plain_metric m = plain_name m.name && not (contains m.help 10)

-- A value on its own line, of a metric without labels.
abbrev IsBare : Metric → Type 0
IsBare m = Lacks 10 m.value × (m.labels ≡ [])

unfoldable all_plain : List Metric → Bool
unfolding plain_metric
all_plain [] = true
all_plain (m ∷ ms) = plain_metric m && all_plain ms

all_plain-IsPlain : (ms : List Metric) → all_plain ms ≡ true → All IsBare ms → All IsPlain ms
unfolding all_plain plain_metric
all_plain-IsPlain [] h v = tt
all_plain-IsPlain (m ∷ ms) h (v, vs) = (
  record {
    name = ground (arith, h);
    help = contains-Lacks 10 m.help (ground (arith, h));
    value = v.0;
    no_labels = v.1;
  },
  all_plain-IsPlain ms (ground (arith, h)) vs,
)

-- The values that metrics.Read finds, a float printed on one line.
abbrev IsSample : SampleValue → Type 0
IsSample (uint64 v) = Unit
IsSample (float64 v) = Lacks 10 v
IsSample other_kind = Unit

-- A name of the runtime, as it is written.
unfoldable plain_runtime : Bytes → Bool
unfolding plain_name contains sanitize_metric_name
plain_runtime n = plain_name (codes "go_" ++ sanitize_metric_name n) && not (contains n 10)

unfoldable all_runtime : List Bytes → Bool
unfolding plain_runtime
all_runtime [] = true
all_runtime (n ∷ ns) = plain_runtime n && all_runtime ns

module _ (go : Go) (one_line : (z : ℤ) → Lacks 10 (go.format_int z)) where
  -- A value that strconv.FormatInt prints.
  bare : (z : ℤ) → Lacks 10 (go.format_int z) × ◌≡◌ {A = Dict Bytes} [] []
  bare z = (one_line z, refl)

  request_metrics-IsPlain : (app : App) → All IsPlain (request_metrics go app)
  unfolding request_metrics
  request_metrics-IsPlain app =
      all_plain-IsPlain (request_metrics go app)
        (unfold all_plain plain_metric plain_name contains in refl)
        (
          bare _,
          (
            bare _,
            (
              bare _,
              (bare _, (bare _, (bare _, (bare _, (bare _, (bare _, (bare _, (bare _, tt)))))))),
            ),
          ),
        )

  dns_metrics-IsPlain : (app : App) → All IsPlain (dns_metrics go app)
  unfolding dns_metrics
  dns_metrics-IsPlain app =
      all_plain-IsPlain (dns_metrics go app)
        (unfold all_plain plain_metric plain_name contains in refl)
        (bare _, (bare _, (bare _, (bare _, (bare _, tt)))))

  endpoint_metrics-IsPlain : (app : App) → All IsPlain (endpoint_metrics go app)
  unfolding endpoint_metrics
  endpoint_metrics-IsPlain app =
      all_plain-IsPlain (endpoint_metrics go app)
        (unfold all_plain plain_metric plain_name contains in refl)
        (bare _, (bare _, (bare _, (bare _, (bare _, (bare _, (bare _, (bare _, tt))))))))

  build_metrics-IsPlain :
      (build : Build)
      → Lacks 10 build.platform
      → Lacks 10 build.go_version
      → All IsPlain (build_metrics go build)
  unfolding build_metrics
  build_metrics-IsPlain build hp hv = (
    record {
      name = unfold plain_name contains in refl;
      help =
          append-Lacks (codes "Build number (version 0.8.0, platform ")
            (build.platform ++ codes ")") (omega arith)
            (append-Lacks build.platform (codes ")") hp (omega arith));
      value = one_line _;
      no_labels = refl;
    },
    (
      record {
        name = unfold plain_name contains in refl;
        help =
            append-Lacks (codes "Go runtime build number (") (build.go_version ++ codes ")")
              (omega arith) (append-Lacks build.go_version (codes ")") hv (omega arith));
        value = one_line _;
        no_labels = refl;
      },
      tt,
    ),
  )

  runtime_metric-IsPlain :
      (n : Bytes) (v : SampleValue)
      → plain_runtime n ≡ true
      → IsSample v
      → All IsPlain (runtime_metric go n v)
  unfolding runtime_metric plain_runtime
  runtime_metric-IsPlain n (uint64 v) h s = (
    record {
      name = ground (arith, h);
      help =
          append-Lacks (codes "Go runtime metric ") n (omega arith)
            (contains-Lacks 10 n (ground (arith, h)));
      value = one_line _;
      no_labels = refl;
    },
    tt,
  )
  runtime_metric-IsPlain n (float64 v) h s = (
    record {
      name = ground (arith, h);
      help =
          append-Lacks (codes "Go runtime metric ") n (omega arith)
            (contains-Lacks 10 n (ground (arith, h)));
      value = s;
      no_labels = refl;
    },
    tt,
  )
  runtime_metric-IsPlain n other_kind h s = tt

  runtime_metrics-IsPlain :
      (read : Bytes → SampleValue) (ns : List Bytes)
      → all_runtime ns ≡ true
      → ((n : Bytes) → IsSample (read n))
      → All IsPlain (runtime_metrics go read ns)
  unfolding runtime_metrics all_runtime
  runtime_metrics-IsPlain read [] h s = tt
  runtime_metrics-IsPlain read (n ∷ ns) h s =
      All-append IsPlain (runtime_metric go n (read n)) (runtime_metrics go read ns)
        (runtime_metric-IsPlain n (read n) (ground (arith, h)) (s n))
        (runtime_metrics-IsPlain read ns (ground (arith, h)) s)

  metrics_of-IsPlain :
      (build : Build) (read : Bytes → SampleValue) (app : App)
      → Lacks 10 build.platform
      → Lacks 10 build.go_version
      → ((n : Bytes) → IsSample (read n))
      → All IsPlain (metrics_of go build read app)
  unfolding metrics_of
  metrics_of-IsPlain build read app hp hv hs =
      let runtime = runtime_metrics go read runtime_metric_names in
      let behind_dns = endpoint_metrics go app ++ runtime in
      let behind_requests = dns_metrics go app ++ behind_dns in
      All-append IsPlain (build_metrics go build) (request_metrics go app ++ behind_requests)
        (build_metrics-IsPlain build hp hv)
        (All-append IsPlain (request_metrics go app) behind_requests (request_metrics-IsPlain app) (
          All-append IsPlain (dns_metrics go app) behind_dns (dns_metrics-IsPlain app) (
            All-append IsPlain (endpoint_metrics go app) runtime (endpoint_metrics-IsPlain app) (
              runtime_metrics-IsPlain read runtime_metric_names
                (unfold all_runtime plain_runtime plain_name contains sanitize_metric_name
                    replace_all in
                  refl)
                hs))))

  -- If the texts of the platform, of the Go version, of numbers and of the runtime's samples hold no
  -- newline: a reader of the answer to a request for the metrics gets, in their order, exactly the
  -- names that were written, each with its value, from the state in which this request is already
  -- counted.
  pub scrape-metrics_handler :
      (build : Build) (read : Bytes → SampleValue) (app : App)
      → Lacks 10 build.platform
      → Lacks 10 build.go_version
      → ((n : Bytes) → IsSample (read n))
      → (text : Bytes) × ((metrics_handler go build read app).1.body ≡ plain text)
        × (scrape text
            ≡ map
                (λ m. (m.name, m.value))
                (metrics_of go build read (metrics_handler go build read app).0))
  unfolding metrics_handler
  scrape-metrics_handler build read app hp hv hs = (
    metrics_text (metrics_of go build read (count_metrics app)),
    refl,
    scrape-metrics_text (metrics_of go build read (count_metrics app))
        (metrics_of-IsPlain build read (count_metrics app) hp hv hs),
  )
