-- ===== src/CrowdSec/Remove/Reconciled.antt =====
-- crowdsec.go: the tables after a reconciliation.
use open_blocklist.Base.{
  codes, has_prefix, ◌&&◌, not, ℕ, suc, Bytes, Option, none, some, true, false, List, [], ◌∷◌, All,
  str_eq, str_eq_iff, contains, if◌then◌else◌, ◌≡◌, refl, ap, sym, subst, ◌∙◌, arith, Bool-cases,
  inl, inr,
}
use mathlib.Core.Option
use open_blocklist.Base.Int.{ℤ}
use open_blocklist.Base.Dict.{Dict, lookup, insert, lookup-insert, IsMap}
use open_blocklist.State.{App, IpNet, BlockEntry, CidrEntry, Go}
use open_blocklist.CidrTable.{find_by_cidr, upsert}
use open_blocklist.CidrTable.Laws.{IsKeyed, find_by_cidr-upsert}
use open_blocklist.Query.{is_in}
use open_blocklist.CrowdSec.{
  Decision, DecisionStream, Clock, crowd_sec_apply, crowd_sec_apply_all, crowd_sec_apply_ip,
  crowd_sec_apply_cidr, block_ip, block_network, decision_cidr_entry, expiration_of,
}
use open_blocklist.CrowdSec.Applied.{
  block_ip_exact, block_network_exact, blocked_entry, blocked_network,
}
use open_blocklist.CrowdSec.Remove.{
  canonical, cs_values, add_value, remove_stale, crowd_sec_reconcile,
}
use open_blocklist.CrowdSec.Remove.Stale.{
  IsCurrent, IsCurrentNetwork, NoneStale, remove_stale-NoneStale,
}

-- The value of the decision, if it has one, is among `values`.
abbrev pub IsListed : List Bytes → Option Bytes → Type 0
IsListed values none = Unit {0}
IsListed values (some v) = is_in v values ≡ true

IsListed-add :
    (values : List Bytes) (new o : Option Bytes)
    → IsListed values o
    → IsListed (add_value new values) o
unfolding is_in add_value
IsListed-add values none o h = h
IsListed-add values (some v) none h = tt
IsListed-add values (some v) (some w) h = ground arith

IsListed-new : (values : List Bytes) (new : Option Bytes) → IsListed (add_value new values) new
unfolding is_in add_value
IsListed-new values none = tt
IsListed-new values (some v) = ground (arith, str_eq_iff v v)

listed-not_stale :
    (values : List Bytes) (source v : Bytes)
    → is_in v values ≡ true
    → (has_prefix source (codes "crowdsec") && not (is_in v values)) ≡ false
listed-not_stale values source v h = ground arith

-- Inserting an entry that is not stale, upserting a network that is not.
IsCurrent-insert :
    (k j : Bytes) (vs : List Bytes) (e : BlockEntry) (m : Dict BlockEntry)
    → is_in k vs ≡ true
    → IsCurrent vs j (lookup j m)
    → IsCurrent vs j (lookup j (insert k e m))
IsCurrent-insert k j vs e m hk h = rw (lookup-insert k j e m) (elim (Bool-cases (str_eq k j)) [
  | inl same ↦ rw (same, sym ((str_eq_iff k j).0 same)) (listed-not_stale vs e.source k hk)
  | inr other ↦ rw other h
])

IsCurrentNetwork-upsert :
    (j : Bytes) (vs : List Bytes) (e : CidrEntry) (es : List CidrEntry)
    → is_in e.cidr vs ≡ true
    → IsCurrentNetwork vs j (find_by_cidr j es)
    → IsCurrentNetwork vs j (find_by_cidr j (upsert e es))
IsCurrentNetwork-upsert j vs e es hk h =
    rw (find_by_cidr-upsert e j es) (elim (Bool-cases (str_eq e.cidr j)) [
      | inl same ↦
          rw (same, sym ((str_eq_iff e.cidr j).0 same)) (listed-not_stale vs e.source e.cidr hk)
      | inr other ↦ rw other h
    ])

module _ (go : Go) (vs : List Bytes) where
  -- No entry is stale, in single-instance mode.
  abbrev Clean : App → Type 0
  Clean app = NoneStale vs app × (app.multi_instance ≡ false)

  block_ip-Clean :
      (clock : Clock) (d : Decision) (expiration : ℤ) (app : App) (ip : Bytes)
      → is_in (go.ip_string ip) vs ≡ true
      → Clean app
      → Clean (block_ip go clock d expiration app ip)
  block_ip-Clean clock d expiration app ip listed ((ips, networks), single) =
      let (table, _, same, mode) = block_ip_exact go clock d expiration app ip in
      let e = blocked_entry go clock d expiration app ip in
      (
        (
          λ k.
              subst (λ m. IsCurrent vs k (lookup k m))
                (sym (
                  table
                  ∙ ap (λ b. if b then app.ip_table else insert (go.ip_string ip) e app.ip_table)
                      single))
                (IsCurrent-insert (go.ip_string ip) k vs e app.ip_table listed (ips k)),
          λ k. rw same (networks k),
        ),
        mode ∙ single,
      )

  block_network-Clean :
      (clock : Clock) (d : Decision) (expiration : ℤ) (app : App) (net : IpNet)
      → is_in (go.net_string net) vs ≡ true
      → Clean app
      → Clean (block_network go clock d expiration app net)
  unfolding decision_cidr_entry
  block_network-Clean clock d expiration app net listed ((ips, networks), single) =
      let (table, _, same, mode) = block_network_exact go clock d expiration app net in
      let e = blocked_network go clock d expiration app net in
      (
        (
          λ k. rw same (ips k),
          λ k.
              rw (table, single)
                (IsCurrentNetwork-upsert k vs e app.cidr_table listed (networks k)),
        ),
        mode ∙ single,
      )

  apply_ip-Clean :
      (clock : Clock) (d : Decision) (expiration : ℤ) (app : App) (parsed : Option Bytes)
      → IsListed vs (Option.map go.ip_string parsed)
      → Clean app
      → Clean (crowd_sec_apply_ip go clock d expiration app parsed)
  unfolding crowd_sec_apply_ip
  apply_ip-Clean clock d expiration app none listed clean = clean
  apply_ip-Clean clock d expiration app (some ip) listed clean =
      block_ip-Clean clock d expiration app ip listed clean

  apply_cidr-Clean :
      (clock : Clock) (d : Decision) (expiration : ℤ) (app : App) (parsed : Option IpNet)
      → IsListed vs (Option.map go.net_string parsed)
      → Clean app
      → Clean (crowd_sec_apply_cidr go clock d expiration app parsed)
  unfolding crowd_sec_apply_cidr
  apply_cidr-Clean clock d expiration app none listed clean = clean
  apply_cidr-Clean clock d expiration app (some net) listed clean =
      block_network-Clean clock d expiration app net listed clean

  crowd_sec_apply-Clean :
      (clock : Clock) (d : Decision) (app : App)
      → IsListed vs (canonical go d)
      → Clean app
      → Clean (crowd_sec_apply go clock d app)
  unfolding crowd_sec_apply canonical
  crowd_sec_apply-Clean clock d app listed clean =
      let expiration = expiration_of go clock.expiry d.duration in
      elim (Bool-cases (contains d.value b'/')) [
        | inl slash ↦ rw slash (
            apply_cidr-Clean clock d expiration app (go.parse_cidr d.value)
              (subst (IsListed vs) (rw slash refl) listed) clean)
        | inr plain ↦ rw plain (
            apply_ip-Clean clock d expiration app (go.parse_ip d.value)
              (subst (IsListed vs) (rw plain refl) listed) clean)
      ]

  crowd_sec_apply_all-Clean :
      (clocks : ℕ → Clock) (ds : List Decision) (app : App)
      → All (λ d. IsListed vs (canonical go d)) ds
      → Clean app
      → Clean (crowd_sec_apply_all go clocks ds app)
  unfolding crowd_sec_apply_all
  crowd_sec_apply_all-Clean clocks [] app listed clean = clean
  crowd_sec_apply_all-Clean clocks (d ∷ ds) app (ld, lds) clean =
      crowd_sec_apply_all-Clean (λ n. clocks (suc n)) ds (crowd_sec_apply go (clocks 0) d app) lds
        (crowd_sec_apply-Clean (clocks 0) d app ld clean)

module _ (go : Go) where
  All-IsListed_add :
      (new : Option Bytes) (vs : List Bytes) (ds : List Decision)
      → All (λ d. IsListed vs (canonical go d)) ds
      → All (λ d. IsListed (add_value new vs) (canonical go d)) ds
  All-IsListed_add new vs [] h = tt
  All-IsListed_add new vs (d ∷ ds) (hd, h) =
      (IsListed-add vs new (canonical go d) hd, All-IsListed_add new vs ds h)

  cs_values-IsListed :
      (ds : List Decision) → All (λ d. IsListed (cs_values go ds) (canonical go d)) ds
  unfolding cs_values
  cs_values-IsListed [] = tt
  cs_values-IsListed (d ∷ ds) = (
    IsListed-new (cs_values go ds) (canonical go d),
    All-IsListed_add (canonical go d) (cs_values go ds) ds (cs_values-IsListed ds),
  )

  -- After a reconciliation in single-instance mode, of tables that hold each key once, every address and every network that is found in
  -- the tables with a source that begins with "crowdsec" is among the canonical values of the
  -- current decisions.
  pub reconcile-NoneStale :
      (clocks : ℕ → Clock) (stream : DecisionStream) (app : App)
      → app.multi_instance ≡ false
      → IsMap app.ip_table
      → IsKeyed app.cidr_table
      → NoneStale (cs_values go stream.new) (crowd_sec_reconcile go clocks stream app)
  unfolding crowd_sec_reconcile
  reconcile-NoneStale clocks stream app single hm hk =
      let values = cs_values go stream.new in
      (crowd_sec_apply_all-Clean go values clocks stream.new (remove_stale go values app)
        (cs_values-IsListed stream.new) (remove_stale-NoneStale go values app single hm hk)).0
