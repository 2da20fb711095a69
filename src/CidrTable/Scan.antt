-- ===== src/CidrTable/Scan.antt =====
-- What a lookup in the table of networks finds.
use open_blocklist.Base.{
  Bytes, Option, none, some, true, false, List, [], ◌∷◌, ◌++◌, All, ◌≡◌, refl, arith, inl, inr,
  Bool-cases, if◌then◌else◌,
}
use open_blocklist.Base.Int.{ℤ}
use open_blocklist.State.{CidrEntry, Go, Task, expire_cidr, is_expired}
use open_blocklist.CidrTable.{scan_nets}

-- The first entry whose network contains the address.
unfoldable pub first_match : Go → Bytes → List CidrEntry → Option CidrEntry
first_match go ip [] = none
first_match go ip (e ∷ es) = if go.net_contains e.net ip then some e else first_match go ip es

abbrev pub decide_match : ℤ → Option CidrEntry → Option CidrEntry × List Task
decide_match now none = (none, [])
decide_match now (some e) =
    if is_expired e.expiration now then (none, expire_cidr e.cidr ∷ []) else (some e, [])

module _ (go : Go) (now : ℤ) (ip : Bytes) where
  -- The lookup is decided by the first match alone: it is found, or it has expired and nothing is.
  pub scan_nets_first :
      (es : List CidrEntry) → scan_nets go now ip es ≡ decide_match now (first_match go ip es)
  unfolding scan_nets first_match
  scan_nets_first [] = refl
  scan_nets_first (e ∷ es) = ground (arith, scan_nets_first es)

  -- What is found contains the address, has not expired, and no goroutine is started for it.
  pub scan_nets_sound :
      (es : List CidrEntry) {e : CidrEntry}
      → (scan_nets go now ip es).0 ≡ some e
      → (go.net_contains e.net ip ≡ true)
        × (is_expired e.expiration now ≡ false)
        × ((scan_nets go now ip es).1 ≡ [])
  unfolding scan_nets
  scan_nets_sound [] h = cc
  scan_nets_sound (f ∷ es) {e} h = ground (arith, scan_nets_sound es {e = e})

  -- If no entry that contains the address has expired, the lookup is complete: it finds nothing only
  -- where no entry contains the address.
  pub scan_nets_complete :
      (es : List CidrEntry)
      → All (λ (f : CidrEntry). is_expired f.expiration now ≡ false) es
      → (scan_nets go now ip es).0 ≡ none
      → All (λ (f : CidrEntry). go.net_contains f.net ip ≡ false) es
  unfolding scan_nets
  scan_nets_complete [] hs h = tt
  scan_nets_complete (f ∷ es) (hf, hs) h = elim (Bool-cases (go.net_contains f.net ip)) [
    | inl hit ↦ cc (rw (hit, hf) at h)
    | inr miss ↦ (miss, scan_nets_complete es hs (rw miss at h))
  ]

  -- The first entry that contains the address, once it has expired, hides all entries behind it, also
  -- those that contain the address and have not expired: the lookup finds nothing.
  pub expired_match_hides :
      (before : List CidrEntry) (e : CidrEntry) (behind : List CidrEntry)
      → All (λ (f : CidrEntry). go.net_contains f.net ip ≡ false) before
      → go.net_contains e.net ip ≡ true
      → is_expired e.expiration now ≡ true
      → scan_nets go now ip (before ++ e ∷ behind) ≡ (none, expire_cidr e.cidr ∷ [])
  unfolding scan_nets
  expired_match_hides [] e behind _ hit gone = rw (hit, gone)
  expired_match_hides (f ∷ before) e behind (miss, rest) hit gone =
      rw miss (expired_match_hides before e behind rest hit gone)
