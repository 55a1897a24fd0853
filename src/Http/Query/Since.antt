-- ===== src/Http/Query/Since.antt =====
-- The days of ?since=30d.
use agent_session_query.Prelude.{
  ℕ, suc, ◌+◌, ◌-◌, ◌*◌, ◌≤◌, ◌<◌, true, ◌++◌, some, Bytes, codes, Time, ltb, bytes_eq, length,
  length-append, drop-append, take-append, ◌≡◌, ◌⊎◌, inl, inr, Bool-cases, ltb→lt, refl, ap, ◌∙◌,
  arith,
}
use agent_session_query.Prelude.Int.{pos}
use agent_session_query.Http.Query.{Lib, ok, day, days_before, parse_since}

-- How many days an int64 of nanoseconds holds.
abbrev pub most_days : ℕ
most_days = 106751

days_before-exact : (now n : ℕ) → n ≤ most_days → days_before now n ≡ now - n * day
unfolding days_before
days_before-exact now n le = ground arith

days_before-wraps : (now n : ℕ) → most_days < n → n ≤ 2 * most_days + 1 → now < days_before now n
unfolding days_before
days_before-wraps now n lt le = ground arith

read_days :
    (lib : Lib) (now : Time) (s : Bytes) (n : ℕ)
    → 0 < length s
    → lib.atoi s ≡ some (pos n)
    → parse_since lib now (s ++ codes "d") ≡ ok (days_before now n)
unfolding parse_since bytes_eq
read_days lib now s n some_digits at =
    let size : length (s ++ codes "d") ≡ suc (length s) =
      length-append s (codes "d") ∙ omega arith in
    let cut : suc (length s) - 1 ≡ length s = omega arith in
    let long : ltb 1 (suc (length s)) ≡ true = ground (arith, some_digits) in
    rw (size, cut) (rw (drop-append s (codes "d"), take-append s (codes "d"), long, at) refl)

-- A text that is not empty and that Atoi reads as n, followed by d, stands for n days before now
-- when n is at most 106751. Past that, up to 213503, the product of nanoseconds wraps around, and
-- the instant is later than now.
pub parse_since_days :
    (lib : Lib) (now : Time) (s : Bytes) (n : ℕ)
    → 0 < length s
    → lib.atoi s ≡ some (pos n)
    → n ≤ 2 * most_days + 1
    → ((n ≤ most_days) × (parse_since lib now (s ++ codes "d") ≡ ok (now - n * day)))
      ⊎ ((most_days < n) × ((t : Time) × (parse_since lib now (s ++ codes "d") ≡ ok t) × (now < t)))
parse_since_days lib now s n some_digits at le =
    let read : parse_since lib now (s ++ codes "d") ≡ ok (days_before now n) =
      read_days lib now s n some_digits at in
    elim (Bool-cases (ltb most_days n)) [
      | inl far ↦ inr (
        ltb→lt most_days n far,
        (days_before now n, read, days_before-wraps now n (ltb→lt most_days n far) le),
      )
      | inr near ↦
          let short : n ≤ most_days = ground (arith, near) in
          inl (short, read ∙ ap ok (days_before-exact now n short))
    ]
