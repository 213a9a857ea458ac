-- ===== src/Period/Plus.antt =====
-- Periods added to an instant, where the time zone has no transitions.
use ztsdb.Base.{◌≡◌, ap, sym, ◌∙◌, true, none, some, [], length, arith}
use ztsdb.Base.Int.{ℤ, pos, eq_ℤ, ◌+ℤ◌, +ℤ_parts, eq_of_parts}
use ztsdb.Zone.{Zone, gmtoff, getoffset, getoffset_near}
use ztsdb.Period.{Period, times, day_nanos, add, plus}

pub getoffset-none :
    (z : Zone) (dt : ℤ) → z.ats ≡ [] → getoffset z dt ≡ some (none, gmtoff z z.default_type)
unfolding getoffset
getoffset-none z dt e = ground (arith, ap length e)

eq_ℤ_refl : (a : ℤ) → eq_ℤ a a ≡ true
eq_ℤ_refl a = ground arith

plus_lem :
    (add_months : ℤ → ℤ → ℤ) (dt : ℤ) (p : Period) (z : Zone)
    → z.ats ≡ []
    → p.months ≡ pos 0
    → plus add_months dt p z ≡ some (dt +ℤ times day_nanos p.days +ℤ p.dur)
unfolding plus getoffset_near
plus_lem add_months dt p z e m =
    let g = getoffset-none z dt e in
    let k : eq_ℤ p.months (pos 0) ≡ true = ground (arith, m) in
    let g' = getoffset-none z (dt +ℤ times day_nanos p.days +ℤ p.dur) e in
    let o = eq_ℤ_refl (gmtoff z z.default_type) in ground (arith, g, k, g', o)

times_add : (a b : ℤ) → times day_nanos (a +ℤ b) ≡ times day_nanos a +ℤ times day_nanos b
unfolding ◌+ℤ◌
times_add a b = ground arith

regroup : (a b c d e : ℤ) → a +ℤ b +ℤ c +ℤ d +ℤ e ≡ a +ℤ (b +ℤ d) +ℤ (c +ℤ e)
regroup a b c d e = omega (arith, +ℤ_parts, eq_of_parts)

-- In a zone without transitions, adding a period without months and then another one is adding their
-- sum.
plus-add :
    (add_months : ℤ → ℤ → ℤ) (dt : ℤ) (p q : Period) (z : Zone)
    → z.ats ≡ []
    → p.months ≡ pos 0
    → q.months ≡ pos 0
    → (r : ℤ) × (plus add_months dt p z ≡ some r)
      × (plus add_months r q z ≡ plus add_months dt (add p q) z)
unfolding add
plus-add add_months dt p q z e m n =
    let sum : pos 0 +ℤ pos 0 ≡ pos 0 =
      eq_of_parts (pos 0 +ℤ pos 0) (pos 0) (omega (arith, +ℤ_parts)) in
    (
      dt +ℤ times day_nanos p.days +ℤ p.dur,
      plus_lem add_months dt p z e m,
      plus_lem add_months _ q z e n
          ∙ ap some (
              regroup dt (times day_nanos p.days) p.dur (times day_nanos q.days) q.dur
              ∙ ap (λ t. dt +ℤ t +ℤ (p.dur +ℤ q.dur)) (sym (times_add p.days q.days)))
          ∙ sym (
              plus_lem add_months dt (add p q) z e
                (ap (λ a. a +ℤ q.months) m ∙ ap (λ a. pos 0 +ℤ a) n ∙ sum)),
    )
