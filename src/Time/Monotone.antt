-- ===== src/Time/Monotone.antt =====
-- Calendar arithmetic never goes the wrong way: months later is days later, months earlier is
-- days earlier.
use metery.Prelude.{
  ℕ, zero, suc, ◌+◌, ◌*◌, ◌≤◌, ◌<◌, ◌≡◌, refl, ap, ℤ, pos, ◌+ℤ◌, ◌-ℤ◌, ◌*ℤ◌, ◌≤ℤ◌, pos_part,
  neg_part, div_ℤ, mod_ℤ, Bool, true, ◌&&◌, leb, arith, int_laws, +ℤ_parts, *ℤ-pos_parts,
  div_ℤ-mod_ℤ, dec_lt, ℕ_discrete,
}
use metery.Time.Calendar.{start_in_cycle, month_start, month_of}
use metery.Time.{Time, day, shift_days, add_date}

-- Each of the first n months of the cycle has at least 28 days.
long_months : ℕ → Bool
long_months zero = true
long_months (suc r) = leb (start_in_cycle r + 28) (start_in_cycle (r + 1)) && long_months r

long_month :
    (n r : ℕ) → r < n → long_months n ≡ true → start_in_cycle r + 28 ≤ start_in_cycle (r + 1)
unfolding long_months
long_month zero r below e = absurd (omega arith)
long_month (suc n) r below e = elim (ℕ_discrete r n) [
  | yes same ↦ rw same (ground arith)
  | no other ↦ long_month n r (omega arith) (ground arith)
]

all_long : long_months 4800 ≡ true
unfolding long_months start_in_cycle
all_long = refl

start_in_cycle_step : (r : ℕ) → r < 4800 → start_in_cycle r + 28 ≤ start_in_cycle (r + 1)
start_in_cycle_step r h = long_month 4800 r h all_long

start_in_cycle_end : start_in_cycle 4800 ≡ 146_097 + start_in_cycle 0
unfolding start_in_cycle
start_in_cycle_end = refl

month_start_parts :
    (k : ℤ)
    → pos_part (month_start k) + neg_part (div_ℤ k 4800) * 146_097
      ≡ neg_part (month_start k) + pos_part (div_ℤ k 4800) * 146_097 + start_in_cycle (mod_ℤ k 4800)
unfolding month_start
month_start_parts k = omega (
  arith,
  *ℤ-pos_parts (div_ℤ k 4800) 146_097,
  +ℤ_parts (div_ℤ k 4800 *ℤ pos 146_097) (pos (start_in_cycle (mod_ℤ k 4800))),
)

ruleset month_facts = (int_laws, div_ℤ-mod_ℤ, month_start_parts)

next_in_cycle : (k : ℤ) → mod_ℤ k 4800 + 1 < 4800 → mod_ℤ (k +ℤ pos 1) 4800 ≡ mod_ℤ k 4800 + 1
next_in_cycle k h = omega (int_laws, div_ℤ-mod_ℤ k 4800, div_ℤ-mod_ℤ (k +ℤ pos 1) 4800)

last_of_cycle : (k : ℤ) → ¬ (mod_ℤ k 4800 + 1 < 4800) → mod_ℤ (k +ℤ pos 1) 4800 ≡ 0
last_of_cycle k h = omega (int_laws, div_ℤ-mod_ℤ k 4800, div_ℤ-mod_ℤ (k +ℤ pos 1) 4800)

-- A month later begins at least 28 days later.
month_start_step : (k : ℤ) → month_start k +ℤ pos 28 ≤ℤ month_start (k +ℤ pos 1)
month_start_step k = elim (dec_lt (mod_ℤ k 4800 + 1) 4800) [
  | yes h ↦ omega (
    int_laws,
    next_in_cycle k h,
    ap start_in_cycle (next_in_cycle k h),
    start_in_cycle_step (mod_ℤ k 4800),
    month_start_parts k,
    month_start_parts (k +ℤ pos 1),
    div_ℤ-mod_ℤ k 4800,
    div_ℤ-mod_ℤ (k +ℤ pos 1) 4800,
  )
  | no h ↦
      let e : mod_ℤ k 4800 ≡ 4799 = omega (arith, div_ℤ-mod_ℤ k 4800) in
      let s : start_in_cycle (mod_ℤ k 4800) + 28 ≤ start_in_cycle 4800 =
        rw e (start_in_cycle_step 4799 (omega arith)) in
      omega (
        int_laws,
        s,
        start_in_cycle_end,
        last_of_cycle k h,
        ap start_in_cycle (last_of_cycle k h),
        month_start_parts k,
        month_start_parts (k +ℤ pos 1),
        div_ℤ-mod_ℤ k 4800,
        div_ℤ-mod_ℤ (k +ℤ pos 1) 4800,
      )
]

-- So `n` months later begins at least 28 * n days later.
month_start_later : (k : ℤ) (n : ℕ) → month_start k +ℤ pos (28 * n) ≤ℤ month_start (k +ℤ pos n)
month_start_later k zero = let e : k +ℤ pos 0 ≡ k = omega int_laws in rw e (omega int_laws)
month_start_later k (suc n) =
    let e : k +ℤ pos (suc n) ≡ k +ℤ pos n +ℤ pos 1 = omega int_laws in
    rw e (omega (int_laws, month_start_later k n, month_start_step (k +ℤ pos n)))

module _ (d : ℤ) where
  -- A move by months and days forward goes forward by at least as many days.
  pub shift_days_forward : (m n : ℕ) → d +ℤ pos (28 * m + n) ≤ℤ shift_days d (pos m) (pos n)
  unfolding shift_days
  shift_days_forward m n = omega (int_laws, month_start_later (month_of d) m)

  -- And backward, backward.
  pub shift_days_backward :
      (m n : ℕ) → shift_days d (pos 0 -ℤ pos m) (pos 0 -ℤ pos n) +ℤ pos (28 * m + n) ≤ℤ d
  unfolding shift_days
  shift_days_backward m n =
      let k : ℤ = month_of d +ℤ (pos 0 -ℤ pos m) in
      let e : k +ℤ pos m ≡ month_of d = omega int_laws in
      let later : month_start k +ℤ pos (28 * m) ≤ℤ month_start (month_of d) =
        rw e at (month_start_later k m) in
      omega (int_laws, later)

shift_days_zero : (d : ℤ) → shift_days d (pos 0) (pos 0) ≡ d
unfolding shift_days
shift_days_zero d =
    let e : month_of d +ℤ pos 0 ≡ month_of d = omega int_laws in rw e (omega int_laws)

module _ (t : Time) where
  add_date_parts :
      (y m d : ℤ)
      → let s = shift_days (div_ℤ t day) (y *ℤ pos 12 +ℤ m) d in
        pos_part (add_date t y m d) + neg_part s * day
        ≡ neg_part (add_date t y m d) + pos_part s * day + mod_ℤ t day
  unfolding add_date
  add_date_parts y m d =
      let s : ℤ = shift_days (div_ℤ t day) (y *ℤ pos 12 +ℤ m) d in
      omega (arith, *ℤ-pos_parts s day, +ℤ_parts (s *ℤ pos day) (pos (mod_ℤ t day)))

  -- `AddDate` forward.
  pub add_date_forward :
      (y m d : ℕ) → t +ℤ pos ((28 * (y * 12 + m) + d) * day) ≤ℤ add_date t (pos y) (pos m) (pos d)
  add_date_forward y m d =
      let e : pos y *ℤ pos 12 +ℤ pos m ≡ pos (y * 12 + m) =
        omega (int_laws, *ℤ-pos_parts (pos y) 12) in
      let s : div_ℤ t day +ℤ pos (28 * (y * 12 + m) + d)
          ≤ℤ shift_days (div_ℤ t day) (pos y *ℤ pos 12 +ℤ pos m) (pos d) =
        rw e (shift_days_forward (div_ℤ t day) (y * 12 + m) d) in
      omega (int_laws, s, add_date_parts (pos y) (pos m) (pos d), div_ℤ-mod_ℤ t day)

  -- `AddDate` backward.
  pub add_date_backward :
      (y m d : ℕ)
      → add_date t (pos 0 -ℤ pos y) (pos 0 -ℤ pos m) (pos 0 -ℤ pos d)
          +ℤ pos ((28 * (y * 12 + m) + d) * day)
        ≤ℤ t
  add_date_backward y m d =
      let z : ℤ = (pos 0 -ℤ pos y) *ℤ pos 12 +ℤ (pos 0 -ℤ pos m) in
      let e : z ≡ pos 0 -ℤ pos (y * 12 + m) = omega (int_laws, *ℤ-pos_parts (pos 0 -ℤ pos y) 12) in
      let s : shift_days (div_ℤ t day) z (pos 0 -ℤ pos d) +ℤ pos (28 * (y * 12 + m) + d)
          ≤ℤ div_ℤ t day =
        rw e (shift_days_backward (div_ℤ t day) (y * 12 + m) d) in
      omega (
        int_laws,
        s,
        add_date_parts (pos 0 -ℤ pos y) (pos 0 -ℤ pos m) (pos 0 -ℤ pos d),
        div_ℤ-mod_ℤ t day,
      )

  -- A date moved by nothing.
  pub add_date_zero : add_date t (pos 0) (pos 0) (pos 0) ≡ t
  add_date_zero =
      let e : pos 0 *ℤ pos 12 +ℤ pos 0 ≡ pos 0 = omega (int_laws, *ℤ-pos_parts (pos 0) 12) in
      let s : shift_days (div_ℤ t day) (pos 0 *ℤ pos 12 +ℤ pos 0) (pos 0) ≡ div_ℤ t day =
        rw e (shift_days_zero (div_ℤ t day)) in
      let p = rw s at (add_date_parts (pos 0) (pos 0) (pos 0)) in
      omega (int_laws, p, div_ℤ-mod_ℤ t day)
