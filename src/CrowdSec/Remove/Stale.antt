-- ===== src/CrowdSec/Remove/Stale.antt =====
-- crowdsec.go: stale entries, and their removal in a reconciliation.
use open_blocklist.Base.{
  codes, has_prefix, ◌&&◌, not, Bytes, Option, none, some, Bool, false, List, [], ◌∷◌, str_eq,
  str_eq_iff, if◌then◌else◌, ◌≡◌, refl, ap, sym, subst, ◌∙◌, arith, Bool-cases, inl, inr,
}
use open_blocklist.Base.Dict.{Dict, lookup, lookup-delete, IsMap}
use open_blocklist.State.{App, BlockEntry, CidrEntry, Go}
use open_blocklist.CidrTable.{find_by_cidr, remove}
use open_blocklist.CidrTable.Laws.{IsKeyed, find_by_cidr-remove, remove-IsKeyed, find-none}
use open_blocklist.Query.{is_in}
use open_blocklist.CrowdSec.Remove.{
  is_stale, stale_ips, stale_cidrs, remove_stale_ip, remove_stale_ips, remove_stale_cidrs,
  unblock_cidr, remove_stale,
}

-- An entry found under `k` does not come from CrowdSec, or `k` is one of the current values.
abbrev pub IsCurrent : List Bytes → Bytes → Option BlockEntry → Type 0
IsCurrent values k none = Unit {0}
IsCurrent values k (some e) =
    (has_prefix e.source (codes "crowdsec") && not (is_in k values)) ≡ false

abbrev pub IsCurrentNetwork : List Bytes → Bytes → Option CidrEntry → Type 0
IsCurrentNetwork values k none = Unit {0}
IsCurrentNetwork values k (some e) =
    (has_prefix e.source (codes "crowdsec") && not (is_in k values)) ≡ false

-- No address and no network in the tables is stale.
abbrev pub NoneStale : List Bytes → App → Type 0
NoneStale values app =
    ((k : Bytes) → IsCurrent values k (lookup k app.ip_table))
    × ((k : Bytes) → IsCurrentNetwork values k (find_by_cidr k app.cidr_table))

abbrev stale : List Bytes → Bytes → Option BlockEntry → Bool
stale values k none = false
stale values k (some e) = is_stale values e.source k

abbrev stale_network : List Bytes → Bytes → Option CidrEntry → Bool
stale_network values k none = false
stale_network values k (some e) = is_stale values e.source k

is_in-stale_ips :
    (values : List Bytes) (k : Bytes) (m : Dict BlockEntry)
    → IsMap m
    → is_in k (stale_ips values m) ≡ stale values k (lookup k m)
unfolding is_in stale_ips lookup
is_in-stale_ips values k [] h = refl
is_in-stale_ips values k ((j, e) ∷ m) (hj, h) =
    ground (arith, is_in-stale_ips values k m h, str_eq_iff j k)

is_in-stale_cidrs :
    (values : List Bytes) (k : Bytes) (es : List CidrEntry)
    → IsKeyed es
    → is_in k (stale_cidrs values es) ≡ stale_network values k (find_by_cidr k es)
unfolding is_in stale_cidrs find_by_cidr
is_in-stale_cidrs values k [] h = refl
is_in-stale_cidrs values k (e ∷ es) (he, h) =
    ground (arith, is_in-stale_cidrs values k es h, str_eq_iff e.cidr k, find-none e.cidr es he)

module _ (go : Go) where
  mode-remove_stale_ip :
      (ip : Bytes) (app : App) → (remove_stale_ip go ip app).multi_instance ≡ app.multi_instance
  unfolding remove_stale_ip
  mode-remove_stale_ip ip app = ground arith

  ips-remove_stale_ip :
      (ip : Bytes) (app : App)
      → app.multi_instance ≡ false
      → (k : Bytes)
      → lookup k (remove_stale_ip go ip app).ip_table
        ≡ (if str_eq ip k then none else lookup k app.ip_table)
  unfolding remove_stale_ip
  ips-remove_stale_ip ip app h k = ground (arith, lookup-delete ip k app.ip_table)

  networks-remove_stale_ip :
      (ip : Bytes) (app : App) → (remove_stale_ip go ip app).cidr_table ≡ app.cidr_table
  unfolding remove_stale_ip
  networks-remove_stale_ip ip app = ground arith

  after-remove_stale_ips :
      (ips : List Bytes) (app : App)
      → app.multi_instance ≡ false
      → ((k : Bytes)
          → lookup k (remove_stale_ips go ips app).ip_table
            ≡ (if is_in k ips then none else lookup k app.ip_table))
        × ((remove_stale_ips go ips app).cidr_table ≡ app.cidr_table)
        × ((remove_stale_ips go ips app).multi_instance ≡ false)
  unfolding remove_stale_ips is_in
  after-remove_stale_ips [] app h = (λ k. refl, refl, h)
  after-remove_stale_ips (ip ∷ ips) app h =
      let (found, networks, mode) =
        after-remove_stale_ips ips (remove_stale_ip go ip app) (mode-remove_stale_ip ip app ∙ h) in
      (
        λ k. ground (arith, found k, ips-remove_stale_ip ip app h k),
        networks ∙ networks-remove_stale_ip ip app,
        mode,
      )

  ips-unblock_cidr : (c : Bytes) (app : App) → (unblock_cidr go c app).ip_table ≡ app.ip_table
  unfolding unblock_cidr
  ips-unblock_cidr c app = ground arith

  mode-unblock_cidr :
      (c : Bytes) (app : App) → (unblock_cidr go c app).multi_instance ≡ app.multi_instance
  unfolding unblock_cidr
  mode-unblock_cidr c app = ground arith

  networks-unblock_cidr :
      (c : Bytes) (app : App)
      → app.multi_instance ≡ false
      → (unblock_cidr go c app).cidr_table ≡ remove c app.cidr_table
  unfolding unblock_cidr
  networks-unblock_cidr c app h = ground arith

  after-remove_stale_cidrs :
      (cs : List Bytes) (app : App)
      → app.multi_instance ≡ false
      → IsKeyed app.cidr_table
      → ((k : Bytes)
          → find_by_cidr k (remove_stale_cidrs go cs app).cidr_table
            ≡ (if is_in k cs then none else find_by_cidr k app.cidr_table))
        × ((remove_stale_cidrs go cs app).ip_table ≡ app.ip_table)
        × ((remove_stale_cidrs go cs app).multi_instance ≡ false)
  unfolding remove_stale_cidrs is_in
  after-remove_stale_cidrs [] app h hk = (λ k. refl, refl, h)
  after-remove_stale_cidrs (c ∷ cs) app h hk =
      let (found, ips, mode) =
        after-remove_stale_cidrs cs (unblock_cidr go c app) (mode-unblock_cidr c app ∙ h) (
          subst IsKeyed (sym (networks-unblock_cidr c app h))
            (remove-IsKeyed c app.cidr_table hk)) in
      (
        λ k. ground (
          arith,
          found k,
          networks-unblock_cidr c app h,
          find_by_cidr-remove c k app.cidr_table hk,
        ),
        ips ∙ ips-unblock_cidr c app,
        mode,
      )

  IsCurrent-unless-stale :
      (values : List Bytes) (k : Bytes) (found : Option BlockEntry)
      → IsCurrent values k (if stale values k found then none else found)
  unfolding is_stale
  IsCurrent-unless-stale values k none = tt
  IsCurrent-unless-stale values k (some e) =
      elim (Bool-cases (has_prefix e.source (codes "crowdsec") && not (is_in k values))) [
        | inl old ↦ rw old tt
        | inr new ↦ rw new new
      ]

  IsCurrentNetwork-unless-stale :
      (values : List Bytes) (k : Bytes) (found : Option CidrEntry)
      → IsCurrentNetwork values k (if stale_network values k found then none else found)
  unfolding is_stale
  IsCurrentNetwork-unless-stale values k none = tt
  IsCurrentNetwork-unless-stale values k (some e) =
      elim (Bool-cases (has_prefix e.source (codes "crowdsec") && not (is_in k values))) [
        | inl old ↦ rw old tt
        | inr new ↦ rw new new
      ]

  pub remove_stale-NoneStale :
      (values : List Bytes) (app : App)
      → app.multi_instance ≡ false
      → IsMap app.ip_table
      → IsKeyed app.cidr_table
      → NoneStale values (remove_stale go values app)
        × ((remove_stale go values app).multi_instance ≡ false)
  unfolding remove_stale
  remove_stale-NoneStale values app h hm hk =
      let ips = stale_ips values app.ip_table in
      let app' = remove_stale_ips go ips app in
      let (found, networks, mode) = after-remove_stale_ips ips app h in
      let cs = stale_cidrs values app'.cidr_table in
      let keyed = subst IsKeyed (sym networks) hk in
      let (found_net, same, mode') = after-remove_stale_cidrs cs app' mode keyed in
      (
        (
          λ k.
              subst (IsCurrent values k)
                (sym (
                  ap (lookup k) same
                  ∙ found k
                  ∙ ap (λ b. if b then none else lookup k app.ip_table)
                      (is_in-stale_ips values k app.ip_table hm)))
                (IsCurrent-unless-stale values k (lookup k app.ip_table)),
          λ k.
              subst (IsCurrentNetwork values k)
                (sym (
                  found_net k
                  ∙ ap (λ b. if b then none else find_by_cidr k app'.cidr_table)
                      (is_in-stale_cidrs values k app'.cidr_table keyed)))
                (IsCurrentNetwork-unless-stale values k (find_by_cidr k app'.cidr_table)),
        ),
        mode',
      )
