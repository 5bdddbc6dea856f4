-- ===== src/Scheduler/Load/Uniform.antt =====
-- An accepted schedule gives the same members to any two tasks that had the same ones before.
use claw.Base.{
  ℕ, zero, suc, ◌≡◌, refl, sym, ap, String, Bool, true, false, Option, none, some, ◌∷◌, ◌++◌, map,
  ◌==◌, string_eq, arith, if◌then◌else◌,
}
use claw.Base.Int.{ℤ, pos, negsuc}
use claw.Base.Bytes.{Bytes, codes, bytes_eq}
use claw.Base.Dict.{lookup}
use claw.Scheduler.Calendar.{Tm, Calendar, from_time_t}
use claw.Scheduler.Defs.{ScheduleType, ScheduledTask, once, daily, weekly, interval, is_once}
use claw.Scheduler.Parse.{
  split_at, stoi, set_time, parse_time, with_type, set_interval, parse_interval, day_map, tolower,
  next_word, parse_weekly, set_once, parse_once, parse_schedule,
}

-- The members that a schedule sets, from another task.
abbrev pub merge : ScheduledTask → ScheduledTask → ScheduledTask
merge y t = record y {
  schedule_type = t.schedule_type;
  interval_seconds = t.interval_seconds;
  hour = t.hour;
  minute = t.minute;
  weekday = t.weekday;
  next_run = if is_once t.schedule_type then t.next_run else y.next_run;
}

-- What a schedule leaves as it was, where it does not set it.
pub record IsSame (x y : ScheduledTask) : Type 0 where
  pub interval_seconds : x.interval_seconds ≡ y.interval_seconds
  pub hour : x.hour ≡ y.hour
  pub minute : x.minute ≡ y.minute
  pub weekday : x.weekday ≡ y.weekday

-- If the first is accepted, so is the second, with the same members.
abbrev pub Agrees : ScheduledTask → ScheduledTask × Bool → ScheduledTask × Bool → Type 0
Agrees y rx ry = rx.1 ≡ true → ry ≡ (merge y rx.0, true)

module _ (x y : ScheduledTask) (same : IsSame x y) where
  refused : (rx : ScheduledTask) (ry : ScheduledTask × Bool) → Agrees y (rx, false) ry
  refused rx ry h = absurd (ground (arith, h))

  timed :
      (k : ScheduleType) (h m : ℤ) (ok : Bool)
      → is_once k ≡ false
      → Agrees y
          (with_type k (record x { hour = h; minute = m }, ok))
          (with_type k (record y { hour = h; minute = m }, ok))
  timed k h m false e accepted = refused (record x { hour = h; minute = m }) _ accepted
  timed k h m true e accepted = λ i. (
    record y {
      schedule_type = k;
      hour = h;
      minute = m;
      interval_seconds = sym same.interval_seconds i;
      weekday = sym same.weekday i;
      next_run = ap (λ b. if b then x.next_run else y.next_run) (sym e) i;
    },
    true,
  )

  set_time-Agrees :
      (k : ScheduleType) (h m : Option ℤ)
      → is_once k ≡ false
      → Agrees y (with_type k (set_time x h m)) (with_type k (set_time y h m))
  set_time-Agrees k none m e = refused x _
  set_time-Agrees k (some h) none e = refused (record x { hour = h }) _
  set_time-Agrees k (some h) (some m) e = timed k h m _ e

  parse_time-Agrees :
      (k : ScheduleType) (text : Bytes)
      → is_once k ≡ false
      → Agrees y (with_type k (parse_time text x)) (with_type k (parse_time text y))
  unfolding parse_time
  parse_time-Agrees k text e = by_parts (split_at 0x3a text)
    where
      by_parts :
          (o : Option (Bytes × Bytes))
          → Agrees y
              (with_type k (elim o as (λ _. ScheduledTask × Bool) [
                | none ↦ (x, false)
                | some parts ↦ set_time x (stoi parts.0) (stoi parts.1)
              ]))
              (with_type k (elim o as (λ _. ScheduledTask × Bool) [
                | none ↦ (y, false)
                | some parts ↦ set_time y (stoi parts.0) (stoi parts.1)
              ]))
      by_parts none = refused x _
      by_parts (some parts) = set_time-Agrees k (stoi parts.0) (stoi parts.1) e

  set_interval-Agrees : (o : Option ℤ) → Agrees y (set_interval x o) (set_interval y o)
  set_interval-Agrees none accepted = refused x _ accepted
  set_interval-Agrees (some s) accepted = λ i. (
    record y {
      schedule_type = interval;
      interval_seconds = s;
      hour = sym same.hour i;
      minute = sym same.minute i;
      weekday = sym same.weekday i;
    },
    true,
  )

  set_once-some :
      (t : ℤ)
      → Agrees y
          (record x { next_run = t; schedule_type = once }, true)
          (record y { next_run = t; schedule_type = once }, true)
  set_once-some t accepted = λ i. (
    record y {
      schedule_type = once;
      next_run = t;
      interval_seconds = sym same.interval_seconds i;
      hour = sym same.hour i;
      minute = sym same.minute i;
      weekday = sym same.weekday i;
    },
    true,
  )

  set_once-Agrees : (t : ℤ) → Agrees y (set_once x t) (set_once y t)
  set_once-Agrees (negsuc zero) = refused x _
  set_once-Agrees (negsuc (suc n)) = set_once-some (from_time_t (negsuc (suc n)))
  set_once-Agrees (pos n) = set_once-some (from_time_t (pos n))

-- The same in both branches.
either {ℓ} :
    {A : Type ℓ} (P : A → A → Type 0) (b : Bool) {x y x' y' : A}
    → P x x'
    → P y y'
    → P (if b then x else y) (if b then x' else y')
either P true h h' = h
either P false h h' = h'

module _ (c : Calendar) (x y : ScheduledTask) (same : IsSame x y) where
  weekly-Agrees : (text : Bytes) → Agrees y (parse_weekly text x) (parse_weekly text y)
  unfolding parse_weekly
  weekly-Agrees text = by_day (lookup (map tolower (next_word text).0) day_map)
    where
      by_day :
          (o : Option ℕ)
          → let rest = (next_word (next_word text).1).0 in
            Agrees y
              (elim o as (λ _. ScheduledTask × Bool) [
                | none ↦ (x, false)
                | some d ↦ with_type weekly (parse_time rest (record x { weekday = pos d }))
              ])
              (elim o as (λ _. ScheduledTask × Bool) [
                | none ↦ (y, false)
                | some d ↦ with_type weekly (parse_time rest (record y { weekday = pos d }))
              ])
      by_day none = refused x y same x _
      by_day (some d) =
          parse_time-Agrees (record x { weekday = pos d }) (record y { weekday = pos d })
            (record {
              interval_seconds = same.interval_seconds;
              hour = same.hour;
              minute = same.minute;
              weekday = refl;
            })
            weekly (next_word (next_word text).1).0 refl

  once-Agrees : (text : Bytes) → Agrees y (parse_once c text x) (parse_once c text y)
  unfolding parse_once
  once-Agrees text =
      by_tm (c.strptime ((next_word text).0 ++ (0x20 ∷ (next_word (next_word text).1).0)))
    where
      by_tm :
          (o : Option Tm)
          → Agrees y
              (elim o as (λ _. ScheduledTask × Bool) [
                | none ↦ (x, false)
                | some tm ↦ set_once x (c.mktime (record tm { tm_isdst = negsuc 0 })).0
              ])
              (elim o as (λ _. ScheduledTask × Bool) [
                | none ↦ (y, false)
                | some tm ↦ set_once y (c.mktime (record tm { tm_isdst = negsuc 0 })).0
              ])
      by_tm none = refused x y same x _
      by_tm (some tm) = set_once-Agrees x y same (c.mktime (record tm { tm_isdst = negsuc 0 })).0

  pub parse_schedule-Agrees :
      (expr : String) → Agrees y (parse_schedule c expr x) (parse_schedule c expr y)
  unfolding parse_schedule
  parse_schedule-Agrees expr =
      let (word, rest) = next_word (codes expr) in
      let type = map tolower word in
      either (Agrees y) (type == codes "daily")
        (parse_time-Agrees x y same daily (next_word rest).0 refl)
        (either (Agrees y) (type == codes "interval")
          (set_interval-Agrees x y same (parse_interval (next_word rest).0))
          (either (Agrees y) (type == codes "once") (once-Agrees rest) (
            either (Agrees y) (type == codes "weekly") (weekly-Agrees rest)
              (refused x y same x _))))
