-- ===== src/Health/Worse.antt =====
-- The order of the statuses, and what counting one logger does to an aggregate.
use zyrnix.Prelude.{ℕ, suc, ◌+◌, ◌≡◌, refl, arith, Bool, true, false, ◌||◌, if◌then◌else◌, Text}
use zyrnix.Health.{HealthStatus, healthy, degraded, unhealthy, same_status}
use zyrnix.Health.Summary.{AggregateHealthResult, count_status, settle}

-- The worse of two.
abbrev pub worse : HealthStatus → HealthStatus → HealthStatus
worse unhealthy t = unhealthy
worse degraded unhealthy = unhealthy
worse degraded healthy = degraded
worse degraded degraded = degraded
worse healthy t = t

pub worse_assoc : (r s t : HealthStatus) → worse (worse r s) t ≡ worse r (worse s t)
worse_assoc healthy s t = refl
worse_assoc degraded healthy t = refl
worse_assoc degraded degraded healthy = refl
worse_assoc degraded degraded degraded = refl
worse_assoc degraded degraded unhealthy = refl
worse_assoc degraded unhealthy t = refl
worse_assoc unhealthy s t = refl

pub flags :
    (s : HealthStatus) (u v : Bool)
    → (if same_status s unhealthy || u
        then unhealthy
        else if same_status s degraded || v
        then degraded
        else healthy)
      ≡ worse s (if u then unhealthy else if v then degraded else healthy)
unfolding same_status
flags healthy u v = refl
flags degraded true v = refl
flags degraded false true = refl
flags degraded false false = refl
flags unhealthy u v = refl

pub worst-count_status :
    (a : AggregateHealthResult) (name : Text) (s t : HealthStatus)
    → a.worst_logger_status ≡ t
    → (count_status a name s).worst_logger_status ≡ worse t s
unfolding count_status same_status
worst-count_status a name healthy healthy h = h
worst-count_status a name healthy degraded h = h
worst-count_status a name healthy unhealthy h = h
worst-count_status a name degraded healthy h = ground (arith, h)
worst-count_status a name degraded degraded h = ground (arith, h)
worst-count_status a name degraded unhealthy h = ground (arith, h)
worst-count_status a name unhealthy healthy h = ground (arith, h)
worst-count_status a name unhealthy degraded h = ground (arith, h)
worst-count_status a name unhealthy unhealthy h = ground (arith, h)

pub settle-count_status :
    (a : AggregateHealthResult) (name : Text) (s : HealthStatus)
    → settle (count_status a name s) ≡ worse (settle a) s
unfolding count_status settle
settle-count_status a name healthy = ground arith
settle-count_status a name degraded = ground arith
settle-count_status a name unhealthy = ground arith

pub total-count_status :
    (a : AggregateHealthResult) (name : Text) (s : HealthStatus)
    → (let b = count_status a name s in b.healthy_count + (b.degraded_count + b.unhealthy_count))
      ≡ suc (a.healthy_count + (a.degraded_count + a.unhealthy_count))
unfolding count_status
total-count_status a name healthy = ground arith
total-count_status a name degraded = ground arith
total-count_status a name unhealthy = ground arith

pub name-count_status :
    (a : AggregateHealthResult) (name : Text) (s t : HealthStatus)
    → a.worst_logger_status ≡ t
    → (count_status a name s).worst_logger_name
      ≡ (if same_status (worse t s) t then a.worst_logger_name else name)
unfolding count_status same_status
name-count_status a name healthy healthy h = refl
name-count_status a name healthy degraded h = refl
name-count_status a name healthy unhealthy h = refl
name-count_status a name degraded healthy h = ground (arith, h)
name-count_status a name degraded degraded h = ground (arith, h)
name-count_status a name degraded unhealthy h = ground (arith, h)
name-count_status a name unhealthy healthy h = ground (arith, h)
name-count_status a name unhealthy degraded h = ground (arith, h)
name-count_status a name unhealthy unhealthy h = ground (arith, h)

pub add_zero : (n : ℕ) → 0 + (0 + 0) + n ≡ n
add_zero n = omega arith

pub loggers-count_status :
    (a : AggregateHealthResult) (name : Text) (s : HealthStatus)
    → (count_status a name s).total_loggers ≡ a.total_loggers
unfolding count_status
loggers-count_status a name healthy = refl
loggers-count_status a name degraded = ground arith
loggers-count_status a name unhealthy = ground arith

pub merge :
    (w s p : HealthStatus) (x y : Text) (g : HealthStatus → Text)
    → (if same_status (worse (worse w s) p) (worse w s)
        then if same_status (worse w s) w then x else y
        else g p)
      ≡ (if same_status (worse w (worse s p)) w
          then x
          else if same_status s (worse s p)
          then y
          else g (worse s p))
unfolding same_status
merge unhealthy s p x y g = refl
merge degraded unhealthy p x y g = refl
merge degraded degraded healthy x y g = refl
merge degraded degraded degraded x y g = refl
merge degraded degraded unhealthy x y g = refl
merge degraded healthy healthy x y g = refl
merge degraded healthy degraded x y g = refl
merge degraded healthy unhealthy x y g = refl
merge healthy degraded healthy x y g = refl
merge healthy degraded degraded x y g = refl
merge healthy degraded unhealthy x y g = refl
merge healthy healthy healthy x y g = refl
merge healthy healthy degraded x y g = refl
merge healthy healthy unhealthy x y g = refl
merge healthy unhealthy p x y g = refl

pub worse_healthy : (s : HealthStatus) → s ≡ worse s healthy
worse_healthy healthy = refl
worse_healthy degraded = refl
worse_healthy unhealthy = refl

pub same_status_refl : (s : HealthStatus) → same_status s s ≡ true
unfolding same_status
same_status_refl healthy = refl
same_status_refl degraded = refl
same_status_refl unhealthy = refl
