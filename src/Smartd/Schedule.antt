-- ===== src/Smartd/Schedule.antt =====
-- next_scheduled_test of src/smartd.cpp. Two functions of libraries are parameters: `full_match`, the
-- match of a text with the regular expression of the configuration, and `local_time`, the local time
-- that lies a number of seconds before a time. The time is an argument.
use smartmontools.Common.{ℕ, zero, suc, Bool, true, false, not, Option, none, some, List, []}
use smartmontools.Common.{ltb, leb, length, take, u32, decimal, is_digit, ◌+◌, ◌-◌, ◌*◌, ◌%◌}
use smartmontools.Common.{◌^◌, ◌&&◌, ◌||◌, ◌∷◌, ◌++◌, ◌==◌, ◌!=◌, if◌then◌else◌}
pub mod Rounds
pub mod Found
pub mod Priority
pub mod Seen
pub mod First
pub mod Once
mod Tests
use Prim.Native.Nat.{min}
use smartmontools.Ata.SelectiveTest.{SpanMode}
use smartmontools.Smartd.State.{DevState, DevConfig}
use smartmontools.Smartd.AtaSelfTest.{TestType}

-- The fields of struct tm that are used.
pub record Tm : Type 0 where
  pub tm_sec : ℕ
  pub tm_min : ℕ
  pub tm_hour : ℕ
  pub tm_mday : ℕ
  pub tm_mon : ℕ
  pub tm_wday : ℕ

-- test_type_chars "LncrSCO": the types, ordered by priority.
abbrev pub test_types : List TestType
test_types =
    TestType.long
    ∷ TestType.selective SpanMode.sel_next
    ∷ TestType.selective SpanMode.sel_cont
    ∷ TestType.selective SpanMode.sel_redo
    ∷ TestType.short
    ∷ TestType.conveyance
    ∷ TestType.offline
    ∷ []

unfoldable pub type_char : TestType → ℕ
type_char TestType.long = b'L'
type_char (TestType.selective SpanMode.sel_next) = b'n'
type_char (TestType.selective SpanMode.sel_cont) = b'c'
type_char (TestType.selective SpanMode.sel_redo) = b'r'
type_char (TestType.selective _) = 0
type_char TestType.short = b'S'
type_char TestType.conveyance = b'C'
type_char TestType.offline = b'O'

-- The test types that the device is known not to have.
unfoldable pub not_capable : DevState → TestType → Bool
not_capable s TestType.long = s.not_cap_long
not_capable s TestType.short = s.not_cap_short
not_capable s TestType.conveyance = s.not_cap_conveyance
not_capable s TestType.offline = s.not_cap_offline
not_capable s (TestType.selective mode) = s.not_cap_selective

unfoldable pub is_space : ℕ → Bool
is_space c = c == b' ' || (leb 9 c && leb c 13)

-- The digits of `%u`: the value, the number of characters that are read so far, and the rest.
unfoldable pub scan_digits : List ℕ → ℕ → ℕ → ℕ × ℕ × List ℕ
unfolding is_digit
scan_digits [] acc n = (acc, n, [])
scan_digits (c ∷ cs) acc n =
    let rest = scan_digits cs (acc * 10 + (c - 48)) (suc n) in
    if is_digit c then rest else (acc, n, c ∷ cs)

-- `%u` behind its blanks and its sign: it wants a digit.
unfoldable pub scan_number : List ℕ → ℕ → Option (ℕ × ℕ × List ℕ)
unfolding is_digit scan_digits
scan_number [] n = none
scan_number (c ∷ cs) n = if is_digit c then some (scan_digits (c ∷ cs) 0 n) else none

-- A negative number is an unsigned one modulo 2 ^ 32.
unfoldable pub negated : Option (ℕ × ℕ × List ℕ) → Option (ℕ × ℕ × List ℕ)
negated none = none
negated (some (value, n, rest)) = some (u32 (2 ^ 32 - u32 value), n, rest)

unfoldable pub scan_signed : List ℕ → ℕ → Option (ℕ × ℕ × List ℕ)
unfolding scan_number negated
scan_signed [] n = none
scan_signed (c ∷ cs) n =
    if c == b'+'
    then scan_number cs (suc n)
    else if c == b'-'
    then negated (scan_number cs (suc n))
    else scan_number (c ∷ cs) n

-- sscanf's `%u`: the value, the number of characters that are read, and the rest.
unfoldable pub scan_unsigned : List ℕ → ℕ → Option (ℕ × ℕ × List ℕ)
unfolding is_space scan_signed
scan_unsigned [] n = none
scan_unsigned (c ∷ cs) n =
    let rest = scan_unsigned cs (suc n) in if is_space c then rest else scan_signed (c ∷ cs) n

-- The limit behind "NNN": what follows a '-' must be a number of three characters that is not 0.
unfoldable pub checked_limit : ℕ → Option (ℕ × ℕ × List ℕ) → Option (ℕ × ℕ × ℕ)
checked_limit offset none = none
checked_limit offset (some (limit, n3, rest)) =
    if n3 == 7 && ltb 0 limit then some (offset, limit, n3) else none

unfoldable pub scan_limit : ℕ → List ℕ → Option (ℕ × ℕ × ℕ)
unfolding scan_unsigned checked_limit
scan_limit offset [] = some (offset, 0, 3)
scan_limit offset (c ∷ cs) =
    if c == b'-' then checked_limit offset (scan_unsigned cs 4) else some (offset, 0, 3)

-- The sscanf call with "%u%n-%n%u%n" on the text behind a ':', and the test of its result: the offset,
-- the limit, and the number of characters.
unfoldable pub scan_offset : Option (ℕ × ℕ × List ℕ) → Option (ℕ × ℕ × ℕ)
unfolding scan_limit
scan_offset none = none
scan_offset (some (offset, n1, rest)) = if n1 == 3 then scan_limit offset rest else none

-- The loop that finds ":NNN[-LLL]" in the pattern, with room for so many and some characters to skip.
unfoldable pub offsets_from : ℕ → ℕ → List ℕ → List (ℕ × ℕ)
unfolding scan_unsigned scan_offset
offsets_from zero skip text = []
offsets_from (suc room) skip [] = []
offsets_from (suc room) (suc skip) (c ∷ cs) = offsets_from (suc room) skip cs
offsets_from (suc room) zero (c ∷ cs) = elim (c == b':') [
  | false ↦ offsets_from (suc room) zero cs
  | true ↦ elim (scan_offset (scan_unsigned cs 0)) [
    | none ↦ offsets_from (suc room) zero cs
    | some (offset, limit, n) ↦ (offset, limit) ∷ offsets_from room n cs
  ]
]

-- "%02d" and "%03u"
unfoldable pub two_digits : ℕ → List ℕ
two_digits n = if ltb n 10 then b'0' ∷ decimal n else decimal n

unfoldable pub three_digits : ℕ → List ℕ
unfolding two_digits
three_digits n = if ltb n 100 then b'0' ∷ two_digits n else decimal n

-- "T/MM/DD/d/HH"; the weekday 0 is printed as 7.
unfoldable pub time_pattern : TestType → Tm → List ℕ
unfolding type_char two_digits
time_pattern test tm =
    let weekday : ℕ = if tm.tm_wday != 0 then tm.tm_wday else 7 in
    type_char test
    ∷ b'/'
    ∷ (two_digits (tm.tm_mon + 1)
        ++ (b'/'
            ∷ (two_digits tm.tm_mday
                ++ (b'/' ∷ (decimal weekday ++ (b'/' ∷ two_digits tm.tm_hour))))))

-- ":NNN[-LLL]"
unfoldable pub offset_pattern : ℕ × ℕ → List ℕ
unfolding three_digits
offset_pattern (offset, limit) =
    b':' ∷ (three_digits offset ++ (if ltb 0 limit then b'-' ∷ three_digits limit else []))

-- The delay of the device in hours, an unsigned int.
unfoldable pub test_delay : DevConfig → ℕ × ℕ → ℕ
test_delay cfg (offset, limit) =
    let delay = u32 (cfg.test_offset_factor * offset) in
    if ltb 0 limit && ltb limit delay then delay % (limit + 1) else delay

-- What the search has found so far: the test and its time, and how many test types are left.
pub record Search : Type 0 where
  pub found : Option (TestType × ℕ)
  pub left : ℕ

-- 90 days in seconds, and a bound on the hours in them, with the first and the last round.
abbrev pub ninety_days : ℕ
ninety_days = 3600 * 24 * 90

abbrev pub max_rounds : ℕ
max_rounds = 24 * 90 + 2

unfoldable pub lacks_all_tests : DevState → Bool
lacks_all_tests s =
    s.not_cap_long && s.not_cap_short && s.not_cap_conveyance && s.not_cap_offline
    && s.not_cap_selective

-- The start of the interval that is searched: not after `now`, nor more than 90 days before it.
unfoldable pub interval_start : ℕ → ℕ → ℕ
interval_start now next =
    if ltb now next then now else if ltb (next + ninety_days) now then now - ninety_days else next

-- The test that a search has found.
unfoldable pub found_test : Search → Option TestType
found_test r = elim r.found [ none ↦ none | some (test, t) ↦ some test ]

-- The state after a search.
unfoldable pub after_search : ℕ → Tm → DevState → Search → DevState
after_search now tm s r = record s {
  scheduled_test_next_check = now + (3600 - tm.tm_min * 60 - tm.tm_sec);
  must_write = elim r.found [ none ↦ s.must_write | some f ↦ true ];
}

module _ (full_match : List ℕ → Bool) (local_time : ℕ → ℕ → Tm) where
  -- The loop over the test types, from the index `j` on: the first one that matches.
  unfoldable pub first_match : DevState → Tm → List ℕ → ℕ → List TestType → Option (TestType × ℕ)
  unfolding not_capable time_pattern
  first_match s tm suffix j [] = none
  first_match s tm suffix j (test ∷ tests) =
      let rest = first_match s tm suffix (suc j) tests in
      if not (not_capable s test) && full_match (time_pattern test tm ++ suffix)
      then some (test, j)
      else rest

  unfoldable pub take_match : ℕ → Search → Option (TestType × ℕ) → Search
  take_match t r none = r
  take_match t r (some (test, j)) = record { found = some (test, t); left = j }

  -- The search at one offset, with its part of the pattern.
  unfoldable pub check_offset : DevConfig → DevState → ℕ → ℕ × ℕ → List ℕ → Search → Search
  unfolding test_delay first_match take_match
  check_offset cfg s t offset suffix r =
      let tm = local_time t (u32 (test_delay cfg offset * 3600)) in
      take_match t r (first_match s tm suffix 0 (take r.left test_types))

  unfoldable pub check_offsets : DevConfig → DevState → ℕ → List (ℕ × ℕ) → Search → Search
  unfolding check_offset offset_pattern
  check_offsets cfg s t [] r = r
  check_offsets cfg s t (offset ∷ offsets) r =
      check_offsets cfg s t offsets (check_offset cfg s t offset (offset_pattern offset) r)

  -- The search at one time: offset 0 first.
  unfoldable pub check_time : DevConfig → DevState → List (ℕ × ℕ) → ℕ → Search → Search
  unfolding check_offset check_offsets
  check_time cfg s offsets t r = check_offsets cfg s t offsets (check_offset cfg s t (0, 0) [] r)

  -- The loop over the hours up to `now`, on fuel.
  unfoldable pub check_hours : DevConfig → DevState → List (ℕ × ℕ) → ℕ → ℕ → ℕ → Search → Search
  unfolding check_time
  check_hours cfg s offsets now zero t r = r
  check_hours cfg s offsets now (suc fuel) t r =
      let r' = check_time cfg s offsets t r in
      elim (r'.left == 0 || leb now t) [
        | true ↦ r'
        | false ↦ check_hours cfg s offsets now fuel (min (t + 3600) now) r'
      ]

  -- The search over the interval. Fewer rounds than `max_rounds` are left when it starts.
  unfoldable pub search_tests : DevConfig → ℕ → DevState → Search
  unfolding offsets_from interval_start check_hours
  search_tests cfg now s =
      check_hours cfg s (offsets_from 7 0 cfg.test_regex) now max_rounds
        (interval_start now s.scheduled_test_next_check) (record { found = none; left = 7 })

  -- next_scheduled_test: the state after it, and the test that is to be started.
  unfoldable pub next_scheduled_test : DevConfig → ℕ → DevState → DevState × Option TestType
  unfolding lacks_all_tests search_tests after_search found_test
  next_scheduled_test cfg now s =
      if leb (length cfg.test_regex) 0 || lacks_all_tests s
      then (s, none)
      else if ltb now s.scheduled_test_next_check && leb s.scheduled_test_next_check (now + 3600)
      then (s, none)
      else (
        after_search now (local_time now 0) s (search_tests cfg now s),
        found_test (search_tests cfg now s),
      )
