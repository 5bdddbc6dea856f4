-- ===== src/Scheduler/NextRun.antt =====
-- When a task runs next.
use claw.Base.{
  ℕ, zero, suc, ◌+◌, ◌-◌, ◌*◌, ◌/◌, ◌%◌, ◌≤◌, ◌<◌, ◌≡◌, ◌⊎◌, refl, sym, ap, subst, arith, leb, ltb,
  ◌=ℕ◌, if◌then◌else◌,
}
use claw.Base.Int.{ℤ, pos, negsuc, ◌-ℤ◌, ◌+ℤ◌, +ℤ_pos, leb_ℤ, pos_part}
use claw.Scheduler.Calendar.{Tm, Calendar, IsRegular, from_time_t, at_time, later_by}
use claw.Scheduler.Valid.{HasTime, IsValid}
use claw.Scheduler.Defs.{
  ScheduleType, ScheduledTask, once, daily, weekly, interval, next_daily, next_weekly, days_ahead,
  is_zero, compute_next_run,
}

module _ (c : Calendar) (regular : IsRegular c) where
  -- The times of day h:m, d days after the day of t.
  abbrev pub moment : ℕ → ℕ → ℕ → ℕ → ℕ
  moment t h m d = regular.midnight t + d * 86400 + h * 3600 + m * 60

  +ℤ_zero : (a : ℤ) → a +ℤ pos 0 ≡ a
  unfolding ◌+ℤ◌
  +ℤ_zero (pos n) = ground arith
  +ℤ_zero (negsuc n) = ground arith

  today :
      (t h m : ℕ)
      → h < 24
      → m < 60
      → (c.mktime (at_time (c.localtime (pos t)) (pos h) (pos m))).0 ≡ pos (moment t h m 0)
  today t h m hh hm =
      subst
        (λ x.
          (c.mktime (record (at_time (c.localtime (pos t)) (pos h) (pos m)) { tm_mday = x })).0
          ≡ pos (moment t h m 0))
        (+ℤ_zero (c.localtime (pos t)).tm_mday) (regular.mktime-later_by t h m 0 hh hm)

  -- The first of them after t.
  abbrev pub IsNextDaily : ℕ → ℕ → ℕ → ℕ → Type 0
  IsNextDaily t h m r = (r ≡ moment t h m 0 ⊎ r ≡ moment t h m 1) × (t < r) × (r ≤ t + 86400)

  after_today :
      (t n : ℕ)
      → (if leb_ℤ (pos n) (pos t) then pos n +ℤ pos (24 * 3600) else pos n)
        ≡ pos (if leb n t then n + 86400 else n)
  after_today t n = ground (arith, +ℤ_pos n 86400)

  next_daily-IsNextDaily :
      (task : ScheduledTask) (t h m : ℕ)
      → h < 24
      → m < 60
      → task.hour ≡ pos h
      → task.minute ≡ pos m
      → (r : ℕ) × (next_daily c task (pos t) ≡ pos r) × IsNextDaily t h m r
  next_daily-IsNextDaily task t h m hh hm eh em =
      let n = moment t h m 0 in
      (
        if leb n t then n + 86400 else n,
        rw (eh, em, today t h m hh hm) (after_today t n),
        ground (arith, regular.midnight-le t, regular.lt-midnight t),
      )

  ahead : ℕ → ℕ → ℕ
  ahead w day = if ltb w day then w + 7 - day else w - day

  days_ahead-ahead :
      (task : ScheduledTask) (tm : Tm) (w day : ℕ)
      → day < 7
      → task.weekday ≡ pos w
      → tm.tm_wday ≡ pos day
      → days_ahead task tm ≡ pos (ahead w day)
  unfolding ◌-ℤ◌ ◌+ℤ◌ ahead
  days_ahead-ahead task tm w day hd ew ed = rw (ew, ed) (ground arith)

  -- The first moment after t that has the weekday and the time of day.
  abbrev pub IsNextWeekly : ℕ → ℕ → ℕ → ℕ → ℕ → Type 0
  IsNextWeekly t h m w r =
      ((d : ℕ) × (r ≡ moment t h m d) × ((regular.day_of_week t + d) % 7 ≡ w))
      × (t < r)
      × (r ≤ t + 604800)

  weekly_day : ℕ → ℕ → ℕ → ℕ → ℕ
  weekly_day t h m d = if d =ℕ 0 then (if leb (moment t h m 0) t then 7 else 0) else d

  set_for : (t h m d : ℕ) → ℤ → ℤ
  set_for t h m d x = (c.mktime (later_by (at_time (c.localtime (pos t)) (pos h) (pos m)) x)).0

  chosen :
      (t h m d : ℕ)
      → h < 24
      → m < 60
      → (if is_zero (pos d)
          then set_for t h m d (if leb_ℤ (pos (moment t h m 0)) (pos t) then pos 7 else pos d)
          else set_for t h m d (pos d))
        ≡ pos (moment t h m (weekly_day t h m d))
  unfolding weekly_day set_for
  chosen t h m zero hh hm =
      ground (arith, regular.mktime-later_by t h m 7 hh hm, regular.mktime-later_by t h m 0 hh hm)
  chosen t h m (suc d) hh hm = ground (arith, regular.mktime-later_by t h m (suc d) hh hm)

  next_weekly-moment :
      (task : ScheduledTask) (t h m w : ℕ)
      → h < 24
      → m < 60
      → task.hour ≡ pos h
      → task.minute ≡ pos m
      → task.weekday ≡ pos w
      → next_weekly c task (pos t)
        ≡ pos (moment t h m (weekly_day t h m (ahead w (regular.day_of_week t))))
  unfolding set_for
  next_weekly-moment task t h m w hh hm eh em ew =
      let day = regular.day_of_week t in
      let days =
        days_ahead-ahead task (c.localtime (pos t)) w day (regular.day_of_week-lt t) ew
          (regular.tm_wday-localtime t) in
      rw (eh, em, days, today t h m hh hm, regular.mktime-normal t h m hh hm)
        (chosen t h m (ahead w day) hh hm)

  next_weekly-IsNextWeekly :
      (task : ScheduledTask) (t h m w : ℕ)
      → h < 24
      → m < 60
      → w < 7
      → task.hour ≡ pos h
      → task.minute ≡ pos m
      → task.weekday ≡ pos w
      → (r : ℕ) × (next_weekly c task (pos t) ≡ pos r) × IsNextWeekly t h m w r
  unfolding ahead weekly_day
  next_weekly-IsNextWeekly task t h m w hh hm hw eh em ew =
      let day = regular.day_of_week t in
      let d = weekly_day t h m (ahead w day) in
      let small = regular.day_of_week-lt t in
      (
        moment t h m d,
        next_weekly-moment task t h m w hh hm eh em ew,
        (
          (d, refl, ground (arith, small)),
          ground (arith, regular.midnight-le t, regular.lt-midnight t, small),
          ground (arith, regular.midnight-le t, regular.lt-midnight t, small),
        ),
      )

  next_t-future : (now r : ℕ) → now / 1000000000 < r → now < r * 1000000000
  next_t-future now r h = omega (arith, h)

  -- What the next run of a task must be, `now` nanoseconds after the epoch.
  abbrev pub NextRun : ScheduleType → ScheduledTask → ℕ → ℤ → Type 0
  NextRun once task now next_run = next_run ≡ task.next_run
  NextRun daily task now next_run =
      (r : ℕ) × (next_run ≡ pos (r * 1000000000))
      × IsNextDaily (now / 1000000000) (pos_part task.hour) (pos_part task.minute) r
      × (now < r * 1000000000)
  NextRun weekly task now next_run =
      (r : ℕ) × (next_run ≡ pos (r * 1000000000))
      × IsNextWeekly (now / 1000000000) (pos_part task.hour) (pos_part task.minute)
          (pos_part task.weekday) r
      × (now < r * 1000000000)
  NextRun interval task now next_run =
      (r : ℕ) × (next_run ≡ pos r)
      × (r ≡ now + pos_part task.interval_seconds * 1000000000)
      × (now < r)

  daily_lem :
      (task : ScheduledTask) (now : ℕ)
      → HasTime task
      → NextRun daily task now (from_time_t (next_daily c task (pos (now / 1000000000))))
  daily_lem task now (h, m, eh, em, hh, hm) =
      let (r, e, first) = next_daily-IsNextDaily task (now / 1000000000) h m hh hm eh em in
      (
        r,
        ap from_time_t e,
        subst (λ x. IsNextDaily (now / 1000000000) x (pos_part task.minute) r)
            (sym (ap pos_part eh))
            (subst (λ x. IsNextDaily (now / 1000000000) h x r) (sym (ap pos_part em)) first),
        next_t-future now r first.1,
      )

  weekly_lem :
      (task : ScheduledTask) (now : ℕ)
      → IsValid weekly task
      → NextRun weekly task now (from_time_t (next_weekly c task (pos (now / 1000000000))))
  weekly_lem task now ((h, m, eh, em, hh, hm), (w, ew, hw)) =
      let (r, e, first) =
        next_weekly-IsNextWeekly task (now / 1000000000) h m w hh hm hw eh em ew in
      (
        r,
        ap from_time_t e,
        subst
            (λ x.
              IsNextWeekly (now / 1000000000) x (pos_part task.minute) (pos_part task.weekday) r)
            (sym (ap pos_part eh))
            (subst (λ x. IsNextWeekly (now / 1000000000) h x (pos_part task.weekday) r)
              (sym (ap pos_part em))
              (subst (λ x. IsNextWeekly (now / 1000000000) h m x r) (sym (ap pos_part ew)) first)),
        next_t-future now r first.1,
      )

  interval_lem :
      (task : ScheduledTask) (now : ℕ)
      → IsValid interval task
      → NextRun interval task now (pos now +ℤ from_time_t task.interval_seconds)
  interval_lem task now (s, es, positive) =
      rw es (now + s * 1000000000, +ℤ_pos now (s * 1000000000), refl, omega (arith, positive))

  -- ComputeNextRun, after the epoch and in a time zone whose clocks are never changed, for a task with
  -- the hour, minute, weekday or interval that its type needs: a daily task runs next at the first
  -- moment after this second that has its time of day, a weekly one at the first that has its weekday
  -- as well, both in the future, and an interval task one interval from now. A task that runs once
  -- keeps its time.
  pub compute_next_run_lem :
      (task : ScheduledTask) (now : ℕ)
      → IsValid task.schedule_type task
      → NextRun task.schedule_type task now (compute_next_run c task (pos now)).next_run
  unfolding compute_next_run
  compute_next_run_lem task now =
      elim task.schedule_type
        as (λ k.
          IsValid k task
          → NextRun k task now
              (elim k as (λ _. ScheduledTask) [
                | daily ↦ record task {
                  next_run = from_time_t (next_daily c task (pos (now / 1000000000)));
                }
                | interval ↦ record task { next_run = pos now +ℤ from_time_t task.interval_seconds }
                | once ↦ task
                | weekly ↦ record task {
                  next_run = from_time_t (next_weekly c task (pos (now / 1000000000)));
                }
              ]).next_run) [
                | once ↦ λ _. refl
                | daily ↦ daily_lem task now
                | weekly ↦ weekly_lem task now
                | interval ↦ interval_lem task now
              ]
