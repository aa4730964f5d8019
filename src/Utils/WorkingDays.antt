-- ===== src/Utils/WorkingDays.antt =====
-- DateUtil.countWorkingDays (src/common/utils/date.util.ts). The calendar of date-fns is a parameter:
-- `eachDayOfInterval`, `getDay` (0 for Sunday), and `format` with 'yyyy-MM-dd'.
use Prim.Native.Nat.{bit_and}
use hr_saas_platform.Shared.{
  ℕ, zero, suc, ◌+◌, ◌-◌, ◌^◌, ◌<◌, ◌==◌, if◌then◌else◌, String, Bool, true, false, not, ◌&&◌, ◌≡◌,
  refl, sym, ap, ◌∙◌, List, [], ◌∷◌, arith, length, includes, string_eq, and_cases,
}
use hr_saas_platform.Shared.Table.{select, count_where, length-select}

-- `jsDay === 0 ? 64 : (1 << (jsDay - 1))`
unfoldable pub bitmask_value : ℕ → ℕ
bitmask_value js_day = if js_day == 0 then 64 else 2 ^ (js_day - 1)

-- `(workingDaysBitmask & bitmaskValue) !== 0`
unfoldable pub is_enabled : ℕ → ℕ → Bool
unfolding bitmask_value
is_enabled bitmask js_day = not (bit_and bitmask (bitmask_value js_day) == 0)

module _ {Day : Type 0} (each_day_of_interval : Day → Day → List Day) (get_day : Day → ℕ)
    (format : Day → String) where
  abbrev pub is_working_day : List String → ℕ → Day → Bool
  is_working_day holidays bitmask day =
      is_enabled bitmask (get_day day) && not (includes holidays (format day))

  unfoldable pub count_working_days : Day → Day → List String → ℕ → ℕ
  count_working_days start end holidays bitmask =
      length (select (is_working_day holidays bitmask) (each_day_of_interval start end))

-- A choice of weekdays, and its bitmask by the convention of the source.
pub record Week : Type 0 where
  pub mon : Bool
  pub tue : Bool
  pub wed : Bool
  pub thu : Bool
  pub fri : Bool
  pub sat : Bool
  pub sun : Bool

abbrev pub flag : Bool → ℕ → ℕ
flag true n = n
flag false n = 0

abbrev pub bitmask_of : Week → ℕ
bitmask_of w =
    flag w.mon 1
    + flag w.tue 2
    + flag w.wed 4
    + flag w.thu 8
    + flag w.fri 16
    + flag w.sat 32
    + flag w.sun 64

-- The choice for a weekday of JavaScript.
abbrev pub chosen : Week → ℕ → Bool
chosen w zero = w.sun
chosen w (suc zero) = w.mon
chosen w (suc (suc zero)) = w.tue
chosen w (suc (suc (suc zero))) = w.wed
chosen w (suc (suc (suc (suc zero)))) = w.thu
chosen w (suc (suc (suc (suc (suc zero))))) = w.fri
chosen w (suc (suc (suc (suc (suc (suc n)))))) = w.sat

abbrev same_bool : Bool → Bool → Bool
same_bool true b = b
same_bool false b = not b

same_bool-eq : (a b : Bool) → same_bool a b ≡ true → a ≡ b
same_bool-eq true b h = sym h
same_bool-eq false b h = ground arith

-- The test holds of both truth values.
abbrev both : (Bool → Bool) → Bool
both p = p true && p false

both-at : (p : Bool → Bool) → both p ≡ true → (b : Bool) → p b ≡ true
both-at p h true = (and_cases _ _ h).0
both-at p h false = (and_cases _ _ h).1

-- Whether the mask of a choice gives the choice back, for a weekday.
agrees : ℕ → Week → Bool
unfolding is_enabled
agrees d w = same_bool (is_enabled (bitmask_of w) d) (chosen w d)

all_agree : ℕ → Bool
unfolding agrees
all_agree d = both λ a. both λ b. both λ c. both λ e. both λ f. both λ g.
    both λ h. agrees d (record { mon = a; tue = b; wed = c; thu = e; fri = f; sat = g; sun = h })

all_agree-agrees : (d : ℕ) → all_agree d ≡ true → (w : Week) → agrees d w ≡ true
unfolding all_agree
all_agree-agrees d h w =
    let at_mon =
      both-at
        (λ a. both λ b. both λ c. both λ e. both λ f. both λ g.
          both λ i.
            agrees d (record { mon = a; tue = b; wed = c; thu = e; fri = f; sat = g; sun = i }))
        h w.mon in
    let at_tue =
      both-at
        (λ b. both λ c. both λ e. both λ f. both λ g. both λ i.
          agrees d (record { mon = w.mon; tue = b; wed = c; thu = e; fri = f; sat = g; sun = i }))
        at_mon w.tue in
    let at_wed =
      both-at
        (λ c. both λ e. both λ f.
          both λ g. both λ i. agrees d (record w { wed = c; thu = e; fri = f; sat = g; sun = i }))
        at_tue w.wed in
    let at_thu =
      both-at
        (λ e.
          both λ f. both λ g. both λ i. agrees d (record w { thu = e; fri = f; sat = g; sun = i }))
        at_wed w.thu in
    let at_fri =
      both-at (λ f. both λ g. both λ i. agrees d (record w { fri = f; sat = g; sun = i })) at_thu
        w.fri in
    let at_sat = both-at (λ g. both λ i. agrees d (record w { sat = g; sun = i })) at_fri w.sat in
    both-at (λ i. agrees d (record w { sun = i })) at_sat w.sun

weekday_agrees : (d : ℕ) → d < 7 → all_agree d ≡ true
unfolding all_agree agrees is_enabled
weekday_agrees zero h = refl
weekday_agrees (suc zero) h = refl
weekday_agrees (suc (suc zero)) h = refl
weekday_agrees (suc (suc (suc zero))) h = refl
weekday_agrees (suc (suc (suc (suc zero)))) h = refl
weekday_agrees (suc (suc (suc (suc (suc zero))))) h = refl
weekday_agrees (suc (suc (suc (suc (suc (suc zero)))))) h = refl
weekday_agrees (suc (suc (suc (suc (suc (suc (suc n))))))) h = absurd (omega arith)

-- Encoding a choice of weekdays as a bitmask, monday at bit 0 and sunday at bit 6, and testing a
-- weekday of JavaScript against it gives the choice back.
pub is_enabled-bitmask_of :
    (w : Week) (js_day : ℕ) → js_day < 7 → is_enabled (bitmask_of w) js_day ≡ chosen w js_day
unfolding agrees
is_enabled-bitmask_of w js_day h =
    same_bool-eq _ _ (all_agree-agrees js_day (weekday_agrees js_day h) w)

count_where_same :
    {Row : Type 0} (p q : Row → Bool) (rows : List Row)
    → ((r : Row) → p r ≡ q r)
    → count_where p rows ≡ count_where q rows
unfolding count_where
count_where_same p q [] same = refl
count_where_same p q (r ∷ rows) same = rw (same r, count_where_same p q rows same) refl

-- For the bitmask of a choice of weekdays, the working days of an interval are its days on a chosen
-- weekday that are no holidays, where the calendar gives weekdays from 0 to 6.
pub count_working_days-bitmask_of :
    {Day : Type 0} (each_day_of_interval : Day → Day → List Day) (get_day : Day → ℕ)
    (format : Day → String)
    → ((day : Day) → get_day day < 7)
    → (start end : Day) (holidays : List String) (w : Week)
    → count_working_days each_day_of_interval get_day format start end holidays (bitmask_of w)
      ≡ count_where
          (λ day. chosen w (get_day day) && not (includes holidays (format day)))
          (each_day_of_interval start end)
unfolding count_working_days
count_working_days-bitmask_of each_day get_day format weekday start end holidays w =
    length-select _ (each_day start end)
    ∙ count_where_same _ _ (each_day start end) (λ day.
      ap (λ b. b && not (includes holidays (format day)))
        (is_enabled-bitmask_of w (get_day day) (weekday day)))
