-- ===== src/Expiry/Laws.antt =====
-- main.go: what a round of the expiration worker removes.
use open_blocklist.Base.{
  Bytes, Option, none, some, Bool, false, ◌&&◌, List, [], ◌∷◌, str_eq, str_eq_iff, if◌then◌else◌,
  ◌≡◌, refl, ap, ◌∙◌, sym, subst, arith,
}
use open_blocklist.Base.Int.{ℤ}
use open_blocklist.Base.Dict.{Dict, lookup, lookup-delete, IsMap}
use open_blocklist.State.{App, BlockEntry, CidrEntry, Go, is_expired}
use open_blocklist.CidrTable.{find_by_cidr}
use open_blocklist.CidrTable.Laws.{IsKeyed, find_by_cidr-remove, remove-IsKeyed, find-none}
use open_blocklist.Query.{is_in}
use open_blocklist.Read.{is_valid_ip}
use open_blocklist.Expiry.{
  expired_ips, expire_ip, expire_ips, expired_cidrs, expire_cidr, expire_cidrs, expiration_round,
}

abbrev pub gone : ℤ → Option BlockEntry → Bool
gone now none = false
gone now (some e) = is_expired e.expiration now

abbrev pub network_gone : ℤ → Option CidrEntry → Bool
network_gone now none = false
network_gone now (some e) = is_expired e.expiration now

module _ (go : Go) where
  is_in-expired_ips :
      (now : ℤ) (k : Bytes) (m : Dict BlockEntry)
      → IsMap m
      → is_in k (expired_ips now m) ≡ gone now (lookup k m)
  unfolding is_in expired_ips lookup
  is_in-expired_ips now k [] h = refl
  is_in-expired_ips now k ((j, e) ∷ m) (hj, h) =
      ground (arith, is_in-expired_ips now k m h, str_eq_iff j k)

  lookup-expire_ip :
      (k ip : Bytes) (app : App)
      → lookup k (expire_ip go ip app).ip_table
        ≡ (if str_eq ip k && is_valid_ip go k then none else lookup k app.ip_table)
  unfolding expire_ip is_valid_ip
  lookup-expire_ip k ip app = ground (arith, lookup-delete ip k app.ip_table, str_eq_iff ip k)

  lookup-expire_ips :
      (k : Bytes) (ips : List Bytes) (app : App)
      → lookup k (expire_ips go ips app).ip_table
        ≡ (if is_in k ips && is_valid_ip go k then none else lookup k app.ip_table)
  unfolding expire_ips is_in
  lookup-expire_ips k [] app = refl
  lookup-expire_ips k (ip ∷ ips) app =
      ground (arith, lookup-expire_ips k ips (expire_ip go ip app), lookup-expire_ip k ip app)

  networks-expire_ips :
      (ips : List Bytes) (app : App) → (expire_ips go ips app).cidr_table ≡ app.cidr_table
  unfolding expire_ips expire_ip
  networks-expire_ips [] app = refl
  networks-expire_ips (ip ∷ ips) app = ground (arith, networks-expire_ips ips (expire_ip go ip app))

  ips-expire_cidrs :
      (cidrs : List Bytes) (app : App) → (expire_cidrs go cidrs app).ip_table ≡ app.ip_table
  unfolding expire_cidrs expire_cidr
  ips-expire_cidrs [] app = refl
  ips-expire_cidrs (c ∷ cs) app = ips-expire_cidrs cs (expire_cidr go c app)

  is_in-expired_cidrs :
      (now : ℤ) (k : Bytes) (es : List CidrEntry)
      → IsKeyed es
      → is_in k (expired_cidrs now es) ≡ network_gone now (find_by_cidr k es)
  unfolding is_in expired_cidrs find_by_cidr
  is_in-expired_cidrs now k [] h = refl
  is_in-expired_cidrs now k (e ∷ es) (he, h) =
      ground (arith, is_in-expired_cidrs now k es h, str_eq_iff e.cidr k, find-none e.cidr es he)

  find-expire_cidrs :
      (k : Bytes) (cidrs : List Bytes) (app : App)
      → IsKeyed app.cidr_table
      → find_by_cidr k (expire_cidrs go cidrs app).cidr_table
        ≡ (if is_in k cidrs then none else find_by_cidr k app.cidr_table)
  unfolding expire_cidrs expire_cidr is_in
  find-expire_cidrs k [] app h = refl
  find-expire_cidrs k (c ∷ cs) app h = ground (
    arith,
    find-expire_cidrs k cs (expire_cidr go c app) (remove-IsKeyed c app.cidr_table h),
    find_by_cidr-remove c k app.cidr_table h,
  )

  address_after :
      (k : Bytes) (now : ℤ) (app : App)
      → IsMap app.ip_table
      → lookup k (expiration_round go now app).ip_table ≡ (
          if gone now (lookup k app.ip_table) && is_valid_ip go k
          then none
          else lookup k app.ip_table)
  unfolding expiration_round
  address_after k now app hm =
      let ips = expired_ips now app.ip_table in
      let app' = expire_ips go ips app in
      ap (lookup k) (ips-expire_cidrs (expired_cidrs now app'.cidr_table) app')
      ∙ lookup-expire_ips k ips app
      ∙ ap (λ b. if b && is_valid_ip go k then none else lookup k app.ip_table)
          (is_in-expired_ips now k app.ip_table hm)

  network_after :
      (k : Bytes) (now : ℤ) (app : App)
      → IsKeyed app.cidr_table
      → find_by_cidr k (expiration_round go now app).cidr_table ≡ (
          if network_gone now (find_by_cidr k app.cidr_table)
          then none
          else find_by_cidr k app.cidr_table)
  unfolding expiration_round
  network_after k now app hk =
      let app' = expire_ips go (expired_ips now app.ip_table) app in
      let same = networks-expire_ips (expired_ips now app.ip_table) app in
      find-expire_cidrs k (expired_cidrs now app'.cidr_table) app' (subst IsKeyed (sym same) hk)
      ∙ ap (λ t. if is_in k (expired_cidrs now t) then none else find_by_cidr k t) same
      ∙ ap (λ b. if b then none else find_by_cidr k app.cidr_table)
          (is_in-expired_cidrs now k app.cidr_table hk)

  -- In tables that hold each key once, a round of the worker removes exactly the addresses whose entry has expired and whose key can be
  -- parsed, and exactly the networks whose entry has expired; all else is found as before.
  pub expiration_round_exact :
      (now : ℤ) (app : App)
      → IsMap app.ip_table
      → IsKeyed app.cidr_table
      → ((k : Bytes)
          → lookup k (expiration_round go now app).ip_table ≡ (
              if gone now (lookup k app.ip_table) && is_valid_ip go k
              then none
              else lookup k app.ip_table))
        × ((k : Bytes)
            → find_by_cidr k (expiration_round go now app).cidr_table ≡ (
                if network_gone now (find_by_cidr k app.cidr_table)
                then none
                else find_by_cidr k app.cidr_table))
  expiration_round_exact now app hm hk =
      (λ k. address_after k now app hm, λ k. network_after k now app hk)
