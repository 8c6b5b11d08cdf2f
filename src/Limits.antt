-- ===== src/Limits.antt =====
-- internal/ratelimit/ratelimit.go: the connections of a user, and the shared token buckets.
pub mod Connections
pub mod Buckets
pub mod Reloads
use sftp2s.Prelude.{
  ℕ, zero, suc, ◌+◌, ◌-◌, Bool, true, false, Bytes, Dict, lookup, put, delete, List, [], ◌∷◌,
  Option, none, some, ltb, leb, if◌then◌else◌,
}

-- The fields of config.UserConfig that limit a user. A limit that is negative means the same as 0
-- to the code, none, and is 0 here.
pub record UserLimits : Type 0 where
  pub username : Bytes
  pub max_connections : ℕ
  pub rate_limit_bytes_per_sec : ℕ

-- UserConnLimiter
pub record UserConnLimiter : Type 0 where
  pub limits : Dict ℕ
  pub counts : Dict ℕ

add_limits : Dict ℕ → List UserLimits → Dict ℕ
add_limits limits [] = limits
add_limits limits (u ∷ users) =
    add_limits (if ltb 0 u.max_connections then put u.username u.max_connections limits else limits)
      users

-- UserConnLimiter.Update
unfoldable pub update : List UserLimits → UserConnLimiter → UserConnLimiter
unfolding add_limits
update users l = record l { limits = add_limits [] users }

-- NewUserConnLimiter
unfoldable pub new_user_conn_limiter : List UserLimits → UserConnLimiter
unfolding update
new_user_conn_limiter users = update users (record { limits = []; counts = [] })

-- counts[user], which is 0 where there is no entry
abbrev pub or_zero : Option ℕ → ℕ
or_zero none = 0
or_zero (some n) = n

unfoldable pub count : UserConnLimiter → Bytes → ℕ
count l user = or_zero (lookup user l.counts)

acquire_up_to : UserConnLimiter → Bytes → Option ℕ → UserConnLimiter × Bool
acquire_up_to l user none = (l, true)
acquire_up_to l user (some max) =
    if leb max (count l user)
    then (l, false)
    else (record l { counts = put user (count l user + 1) l.counts }, true)

-- UserConnLimiter.Acquire
unfoldable pub acquire : UserConnLimiter → Bytes → UserConnLimiter × Bool
unfolding acquire_up_to count
acquire l user = acquire_up_to l user (lookup user l.limits)

-- UserConnLimiter.Release
unfoldable pub release : UserConnLimiter → Bytes → UserConnLimiter
unfolding count
release l user =
    if ltb 0 (count l user) then record l { counts = put user (count l user - 1) l.counts } else l

-- MaxDuration
unfoldable pub max_duration : ℕ → ℕ → ℕ
max_duration a b = if ltb b a then a else b

-- limiterBurst
unfoldable pub limiter_burst : ℕ → ℕ
limiter_burst bytes_per_sec = if ltb bytes_per_sec 65536 then 65536 else bytes_per_sec

-- rate.Limiter of golang.org/x/time, with the calls that the program makes.
pub record Limiters : Type 1 where
  pub Limiter : Type 0
  -- rate.NewLimiter: the rate, and the burst
  pub new_limiter : ℕ → ℕ → Limiter
  pub set_limit : ℕ → Limiter → Limiter
  pub set_burst : ℕ → Limiter → Limiter

module _ (rate : Limiters) where
  open rate use {Limiter}

  -- NewAcceptRateLimiter
  unfoldable pub new_accept_rate_limiter : ℕ → Option Limiter
  new_accept_rate_limiter per_sec =
      if ltb 0 per_sec then some (rate.new_limiter per_sec per_sec) else none

  -- NewUserRateLimiter
  unfoldable pub new_user_rate_limiter : ℕ → Option Limiter
  unfolding limiter_burst
  new_user_rate_limiter bytes_per_sec =
      if ltb 0 bytes_per_sec
      then some (rate.new_limiter bytes_per_sec (limiter_burst bytes_per_sec))
      else none

-- UserRateRegistry
pub record UserRateRegistry (Limiter : Type 0) : Type 0 where
  pub limits : Dict ℕ
  pub limiters : Dict Limiter

unfoldable pub new_limits : Dict ℕ → List UserLimits → Dict ℕ
new_limits limits [] = limits
new_limits limits (u ∷ users) =
    new_limits
      (if ltb 0 u.rate_limit_bytes_per_sec
        then put u.username u.rate_limit_bytes_per_sec limits
        else limits)
      users

keep_limited : {L : Type 0} → Option ℕ → Bytes → Dict L → Dict L
keep_limited none user limiters = delete user limiters
keep_limited (some n) user limiters = limiters

-- the loop that removes the limiters of users without a limit
unfoldable pub drop_unlimited : {L : Type 0} → Dict ℕ → Dict L → Dict L → Dict L
unfolding keep_limited
drop_unlimited limits [] limiters = limiters
drop_unlimited limits ((user, lim) ∷ rest) limiters =
    drop_unlimited limits rest (keep_limited (lookup user limits) user limiters)

module _ (rate : Limiters) where
  open rate use {Limiter}

  unfoldable pub set_rate : ℕ → Option Limiter → Limiter
  unfolding limiter_burst
  set_rate n none = rate.new_limiter n (limiter_burst n)
  set_rate n (some lim) = rate.set_burst (limiter_burst n) (rate.set_limit n lim)

  -- the loop that creates or updates the limiters
  unfoldable pub set_rates : Dict ℕ → Dict Limiter → Dict Limiter
  unfolding set_rate
  set_rates [] limiters = limiters
  set_rates ((user, n) ∷ limits) limiters =
      set_rates limits (put user (set_rate n (lookup user limiters)) limiters)

  -- UserRateRegistry.Update
  unfoldable pub update_rates :
      List UserLimits → UserRateRegistry Limiter → UserRateRegistry Limiter
  unfolding new_limits drop_unlimited set_rates
  update_rates users r = record {
    limits = new_limits [] users;
    limiters =
        set_rates (new_limits [] users)
          (drop_unlimited (new_limits [] users) r.limiters r.limiters);
  }

  -- UserRateRegistry.Limiter
  unfoldable pub limiter : UserRateRegistry Limiter → Bytes → Option Limiter
  limiter r user = lookup user r.limiters
