-- ===== src/Duration.antt =====
-- An ISO-8601 duration as the library github.com/sosodev/duration parses it. The program reads a
-- field only through Go's conversion to int, which cuts the fraction off: a field stands here for
-- the converted number. `negative` is the leading minus sign of the text.
use metery.Prelude.{ℕ, ◌+◌, ◌*◌, ◌≤◌, ◌<◌, ◌≡◌, ℤ, pos_part, neg_part, Bool, false}
use metery.Time.{second}

pub record Duration : Type 0 where
  pub years : ℤ
  pub months : ℤ
  pub weeks : ℤ
  pub days : ℤ
  pub hours : ℤ
  pub minutes : ℤ
  pub seconds : ℤ
  pub negative : Bool

abbrev pub minute : ℕ
minute = 60 * second

abbrev pub hour : ℕ
hour = 60 * minute

-- A field that is not negative and at most a million, so that no product of it overflows an int64.
abbrev pub Small : ℤ → Type 0
Small z = (neg_part z ≡ 0) × (pos_part z ≤ 1_000_000)

-- A duration with no minus sign, with small fields, one of which at least is positive.
pub record IsForward (d : Duration) : Type 0 where
  pub plain : d.negative ≡ false
  pub small_years : Small d.years
  pub small_months : Small d.months
  pub small_weeks : Small d.weeks
  pub small_days : Small d.days
  pub small_hours : Small d.hours
  pub small_minutes : Small d.minutes
  pub small_seconds : Small d.seconds
  pub moves :
      0
      < pos_part d.years
        + pos_part d.months
        + pos_part d.weeks
        + pos_part d.days
        + pos_part d.hours
        + pos_part d.minutes
        + pos_part d.seconds
