-- ===== src/UnitTests/Passing.antt =====
-- unittest_enabled.go: when the program starts.
use open_blocklist.Base.{
  Bytes, codes, Bool, true, false, ◌&&◌, List, [], ◌∷◌, ◌++◌, map, All, All-append, ◌≡◌, ◌↔◌, refl,
  arith,
}
use open_blocklist.State.{Go}
use open_blocklist.Ipv4.{append_uint8}
use open_blocklist.Read.{is_valid_ip}
use open_blocklist.UnitTests.{
  Check, TestSuite, new_suite, check, check_all, is_true, is_false, conversion_checks, valid_texts,
  invalid_texts, valid_check, invalid_check, test_ip_conversion, totals, run_suites, run_unit_tests,
}

abbrev Passes : Check → Type 0
Passes c = c.ok ≡ true

all_pass : List Check → Bool
all_pass [] = true
all_pass (c ∷ cs) = c.ok && all_pass cs

-- The harness counts no failure exactly if every check passes.
check_all-failed :
    (cs : List Check) (s : TestSuite)
    → ((check_all cs s).failed ≡ 0) ↔ ((s.failed ≡ 0) × (all_pass cs ≡ true))
unfolding check_all check all_pass
check_all-failed [] s = (λ h. (h, refl), λ h. h.0)
check_all-failed (c ∷ cs) s = ground (arith, check_all-failed cs (check c s))

conversion : all_pass conversion_checks ≡ true
unfolding conversion_checks all_pass append_uint8
conversion = refl

all_pass-All : (cs : List Check) → (all_pass cs ≡ true) ↔ All Passes cs
unfolding all_pass
all_pass-All [] = (λ _. tt, λ _. refl)
all_pass-All (c ∷ cs) = ground (arith, all_pass-All cs)

All-of_append : (xs ys : List Check) → All Passes (xs ++ ys) → All Passes xs × All Passes ys
All-of_append [] ys h = (tt, h)
All-of_append (x ∷ xs) ys (hx, h) = let (a, b) = All-of_append xs ys h in ((hx, a), b)

module _ (go : Go) where
  valid-All :
      (ss : List Bytes)
      → All Passes (map (valid_check go) ss) ↔ All (λ s. is_valid_ip go s ≡ true) ss
  unfolding valid_check is_true
  valid-All [] = (λ h. h, λ h. h)
  valid-All (s ∷ ss) = let h = valid-All ss in (λ (a, b). (a, h.0 b), λ (a, b). (a, h.1 b))

  invalid-All :
      (ss : List Bytes)
      → All Passes (map (invalid_check go) ss) ↔ All (λ s. is_valid_ip go s ≡ false) ss
  unfolding invalid_check is_false
  invalid-All [] = (λ h. h, λ h. h)
  invalid-All (s ∷ ss) =
      let h = invalid-All ss in
      (λ (a, b). (ground (arith, a), h.0 b), λ (a, b). (ground (arith, a), h.1 b))

  run-failed : (s : TestSuite) → (run_suites (s ∷ []) ≡ true) ↔ (s.failed ≡ 0)
  unfolding run_suites totals
  run-failed s = ground arith

  -- The start gets past the unit tests exactly if net.ParseIP accepts each of the five texts that
  -- they take as valid and none of the five that they take as invalid: the conversions of IPv4
  -- addresses pass all their tests, and the harness reports a failed check.
  pub run_unit_tests-passes : (run_unit_tests go ≡ true) ↔ (
      All (λ s. is_valid_ip go s ≡ true) valid_texts
      × All (λ s. is_valid_ip go s ≡ false) invalid_texts)
  unfolding run_unit_tests test_ip_conversion
  run_unit_tests-passes =
      let valid = map (valid_check go) valid_texts in
      let invalid = map (invalid_check go) invalid_texts in
      let cs = conversion_checks ++ (valid ++ invalid) in
      let s = new_suite (codes "IP conversion") in
      (
        λ h.
            let passed =
              (all_pass-All cs).0
                ((check_all-failed cs s).0 ((run-failed (check_all cs s)).0 h)).1 in
            let (v, i) =
              All-of_append valid invalid
                (All-of_append conversion_checks (valid ++ invalid) passed).1 in
            ((valid-All valid_texts).0 v, (invalid-All invalid_texts).0 i),
        λ (v, i).
            let passed =
              All-append Passes conversion_checks (valid ++ invalid)
                ((all_pass-All conversion_checks).0 conversion)
                (All-append Passes valid invalid ((valid-All valid_texts).1 v)
                  ((invalid-All invalid_texts).1 i)) in
            (run-failed (check_all cs s)).1
              ((check_all-failed cs s).1 (refl, (all_pass-All cs).1 passed)),
      )
