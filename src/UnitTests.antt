-- ===== src/UnitTests.antt =====
-- unittest_enabled.go: the harness and the tests that a build with the tag unittest runs at its start.
pub mod Passing
use open_blocklist.Base.{
  ℕ, ◌+◌, ◌==◌, ltb, Bytes, codes, Bool, true, false, not, List, [], ◌∷◌, ◌++◌, map, str_eq,
  contains, if◌then◌else◌,
}
use open_blocklist.State.{Go}
use open_blocklist.Ipv4.{ipv4_str_to_uint32, uint32_to_ipv4_str, is_ipv4}
use open_blocklist.Read.{is_valid_ip}

-- What fmt.Sprintf makes the message of a failed test from.
pub data Message : Type 0 where
  no_message : Message
  got_u32 : ℕ → ℕ → Message
  got_str : Bytes → Bytes → Message
  expected : Bool → Message

pub record UnitTest : Type 0 where
  pub name : Bytes
  pub passed : Bool
  pub msg : Message

pub record TestSuite : Type 0 where
  pub name : Bytes
  pub tests : List UnitTest
  pub passed : ℕ
  pub failed : ℕ

abbrev pub new_suite : Bytes → TestSuite
new_suite name = record { name = name; tests = []; passed = 0; failed = 0 }

-- The arguments of a call of check.
pub record Check : Type 0 where
  pub name : Bytes
  pub ok : Bool
  pub message : Message

-- testSuite.check
unfoldable pub check : Check → TestSuite → TestSuite
check c s = record s {
  tests =
      s.tests
      ++ record { name = c.name; passed = c.ok; msg = if c.ok then no_message else c.message } ∷ [];
  passed = if c.ok then s.passed + 1 else s.passed;
  failed = if c.ok then s.failed else s.failed + 1;
}

unfoldable pub check_all : List Check → TestSuite → TestSuite
unfolding check
check_all [] s = s
check_all (c ∷ cs) s = check_all cs (check c s)

-- equalU32, equalStr, isTrue and isFalse
unfoldable pub equal_u32 : Bytes → ℕ → ℕ → Check
equal_u32 name got want = record { name = name; ok = got == want; message = got_u32 got want }

unfoldable pub equal_str : Bytes → Bytes → Bytes → Check
unfolding str_eq
equal_str name got want = record { name = name; ok = str_eq got want; message = got_str got want }

unfoldable pub is_true : Bytes → Bool → Check
is_true name got = record { name = name; ok = got; message = expected true }

unfoldable pub is_false : Bytes → Bool → Check
is_false name got = record { name = name; ok = not got; message = expected false }

-- IsIPv6
unfoldable pub is_ipv6 : Bytes → Bool
unfolding contains
is_ipv6 s = contains s b':'

-- The tests of testIPConversion that call only this program's code.
unfoldable pub conversion_checks : List Check
unfolding equal_u32 equal_str is_true is_false is_ipv6 is_ipv4 ipv4_str_to_uint32 uint32_to_ipv4_str
    str_eq
conversion_checks =
    equal_u32 (codes "IPv4StrToUint32 1.2.3.4") (ipv4_str_to_uint32 (codes "1.2.3.4")) 0x01020304
      ∷ equal_u32 (codes "IPv4StrToUint32 0.0.0.0") (ipv4_str_to_uint32 (codes "0.0.0.0")) 0
      ∷ equal_u32 (codes "IPv4StrToUint32 255.255.255.255")
          (ipv4_str_to_uint32 (codes "255.255.255.255")) 0xFFFFFFFF
      ∷ equal_u32 (codes "IPv4StrToUint32 127.0.0.1") (ipv4_str_to_uint32 (codes "127.0.0.1"))
          0x7F000001
      ∷ equal_u32 (codes "IPv4StrToUint32 10.0.0.1") (ipv4_str_to_uint32 (codes "10.0.0.1"))
          0x0A000001
      ∷ equal_u32 (codes "IPv4StrToUint32 256.0.0.1") (ipv4_str_to_uint32 (codes "256.0.0.1")) 0
      ∷ equal_u32 (codes "IPv4StrToUint32 empty") (ipv4_str_to_uint32 (codes "")) 0
      ∷ equal_u32 (codes "IPv4StrToUint32 non-numeric")
          (ipv4_str_to_uint32 (codes "not.an.ip.address")) 0
      ∷ equal_u32 (codes "IPv4StrToUint32 too few octets") (ipv4_str_to_uint32 (codes "1.2.3")) 0
      ∷ equal_u32 (codes "IPv4StrToUint32 too many octets") (ipv4_str_to_uint32 (codes "1.2.3.4.5"))
          0
      ∷ equal_u32 (codes "IPv4StrToUint32 negative octet") (ipv4_str_to_uint32 (codes "1.2.3.-1")) 0
      ∷ equal_u32 (codes "IPv4StrToUint32 trailing garbage") (ipv4_str_to_uint32 (codes "1.2.3.4x"))
          0
      ∷ equal_str (codes "Uint32ToIPv4Str 0x01020304") (uint32_to_ipv4_str 0x01020304)
          (codes "1.2.3.4")
      ∷ equal_str (codes "Uint32ToIPv4Str 0x00000000") (uint32_to_ipv4_str 0) (codes "0.0.0.0")
      ∷ equal_str (codes "Uint32ToIPv4Str 0xFFFFFFFF") (uint32_to_ipv4_str 0xFFFFFFFF)
          (codes "255.255.255.255")
      ∷ equal_str (codes "Uint32ToIPv4Str 0x7F000001") (uint32_to_ipv4_str 0x7F000001)
          (codes "127.0.0.1")
      ∷ map
          (λ ip.
            equal_str (codes "roundtrip " ++ ip) (uint32_to_ipv4_str (ipv4_str_to_uint32 ip)) ip)
          (codes "1.2.3.4"
            ∷ codes "10.0.0.1"
            ∷ codes "192.168.1.100"
            ∷ codes "255.255.255.255"
            ∷ codes "0.0.0.0"
            ∷ [])
    ++ map (λ ip. is_true (codes "IsIPv4 valid " ++ ip) (is_ipv4 ip))
        (codes "1.2.3.4" ∷ codes "0.0.0.0" ∷ codes "255.255.255.255" ∷ codes "127.0.0.1" ∷ [])
    ++ map (λ ip. is_false (codes "IsIPv4 invalid " ++ ip) (is_ipv4 ip))
        (codes ""
          ∷ codes "not.an.ip.address"
          ∷ codes "256.0.0.1"
          ∷ codes "1.2.3"
          ∷ codes "::1"
          ∷ codes "2001:db8::1"
          ∷ [])
    ++ map (λ ip. is_true (codes "IsIPv6 valid " ++ ip) (is_ipv6 ip))
        (codes "::1" ∷ codes "2001:db8::1" ∷ codes "fe80::1" ∷ [])
    ++ map (λ ip. is_false (codes "IsIPv6 invalid " ++ ip) (is_ipv6 ip))
        (codes "" ∷ codes "1.2.3.4" ∷ codes "not-an-ip" ∷ [])

abbrev pub valid_texts : List Bytes
valid_texts =
    codes "1.2.3.4"
    ∷ codes "0.0.0.0"
    ∷ codes "255.255.255.255"
    ∷ codes "::1"
    ∷ codes "2001:db8::1"
    ∷ []

abbrev pub invalid_texts : List Bytes
invalid_texts =
    codes ""
    ∷ codes "256.0.0.1"
    ∷ codes "not.an.ip.address"
    ∷ codes "1.2.3"
    ∷ codes "1.2.3.4.5"
    ∷ []

-- Its tests of IsValidIP.
unfoldable pub valid_check : Go → Bytes → Check
unfolding is_true is_valid_ip
valid_check go ip = is_true (codes "IsValidIP valid " ++ ip) (is_valid_ip go ip)

unfoldable pub invalid_check : Go → Bytes → Check
unfolding is_false is_valid_ip
invalid_check go ip = is_false (codes "IsValidIP invalid " ++ ip) (is_valid_ip go ip)

-- testIPConversion
unfoldable pub test_ip_conversion : Go → TestSuite
unfolding check_all conversion_checks valid_check invalid_check
test_ip_conversion go =
    check_all
      (conversion_checks
        ++ (map (valid_check go) valid_texts ++ map (invalid_check go) invalid_texts))
      (new_suite (codes "IP conversion"))

-- The totals that runUnitTests adds up, passed and failed.
unfoldable pub totals : List TestSuite → ℕ × ℕ
totals [] = (0, 0)
totals (s ∷ ss) = let (p, f) = totals ss in (s.passed + p, s.failed + f)

unfoldable pub run_suites : List TestSuite → Bool
unfolding totals
run_suites ss = not (ltb 0 (totals ss).1)

-- runUnitTests; the program ends where the answer is false.
unfoldable pub run_unit_tests : Go → Bool
unfolding run_suites test_ip_conversion
run_unit_tests go = run_suites (test_ip_conversion go ∷ [])
