-- ===== src/Limits/Buckets.antt =====
-- UserRateRegistry: which users have a token bucket behind an Update, and which bucket.
use sftp2s.Prelude.{
  Distinct, put-Distinct, ℕ, false, ◌&&◌, ap, ◌∙◌, Bytes, bytes_eq, bytes_eq_iff, bytes_eq_refl,
  Dict, lookup, lookup-put, lookup-delete, put, List, [], ◌∷◌, Option, none, some, ◌≡◌, refl, sym,
  subst, ltb, Bool-cases, inl, inr, arith, if◌then◌else◌,
}
use sftp2s.Limits.{
  UserLimits, Limiters, UserRateRegistry, new_limits, keep_limited, drop_unlimited, set_rate,
  set_rates, update_rates, limiter, limiter_burst,
}

new_limits-Distinct :
    (users : List UserLimits) (limits : Dict ℕ)
    → Distinct limits
    → Distinct (new_limits limits users)
unfolding new_limits
new_limits-Distinct [] limits h = h
new_limits-Distinct (u ∷ users) limits h = elim (Bool-cases (ltb 0 u.rate_limit_bytes_per_sec)) [
  | inl limited ↦
      rw limited
        (new_limits-Distinct users _ (put-Distinct u.username u.rate_limit_bytes_per_sec limits h))
  | inr free ↦ rw free (new_limits-Distinct users limits h)
]

-- The rate that a configuration gives a user: the last positive one among the entries of that name.
unfoldable pub rate_of : Bytes → List UserLimits → Option ℕ
rate_of user [] = none
rate_of user (u ∷ users) = elim (rate_of user users) [
  | some n ↦ some n
  | none ↦
      if bytes_eq u.username user && ltb 0 u.rate_limit_bytes_per_sec
      then some u.rate_limit_bytes_per_sec
      else none
]

lookup-new_limits :
    (users : List UserLimits) (limits : Dict ℕ) (user : Bytes)
    → lookup user (new_limits limits users)
      ≡ elim (rate_of user users) [ some n ↦ some n | none ↦ lookup user limits ]
unfolding new_limits rate_of
lookup-new_limits [] limits user = refl
lookup-new_limits (u ∷ users) limits user = ground (
  arith,
  lookup-new_limits users
      (if ltb 0 u.rate_limit_bytes_per_sec
        then put u.username u.rate_limit_bytes_per_sec limits
        else limits)
      user,
  lookup-put u.username user u.rate_limit_bytes_per_sec limits,
)

rate_of-lookup :
    (users : List UserLimits) (user : Bytes)
    → lookup user (new_limits [] users) ≡ rate_of user users
unfolding lookup
rate_of-lookup users user = ground (arith, lookup-new_limits users [] user)

module _ {L : Type 0} (limits : Dict ℕ) where
  limited_only : Bytes → Option L → Option L
  limited_only user o = elim (lookup user limits) [ none ↦ none | some n ↦ o ]

  keep_other :
      (o : Option ℕ) (k user : Bytes) (ms : Dict L)
      → bytes_eq k user ≡ false
      → lookup user (keep_limited o k ms) ≡ lookup user ms
  unfolding keep_limited
  keep_other none k user ms other = ground (arith, lookup-delete k user ms)
  keep_other (some n) k user ms other = refl

  keep_self :
      (o : Option ℕ) (user : Bytes) (ms : Dict L)
      → lookup user (keep_limited o user ms) ≡ elim o [ none ↦ none | some n ↦ lookup user ms ]
  unfolding keep_limited
  keep_self none user ms = ground (arith, lookup-delete user user ms, bytes_eq_refl user)
  keep_self (some n) user ms = refl

  lookup-keep_limited :
      (k user : Bytes) (ms : Dict L)
      → lookup user (keep_limited (lookup k limits) k ms)
        ≡ (if bytes_eq k user then limited_only user (lookup user ms) else lookup user ms)
  unfolding limited_only keep_limited
  lookup-keep_limited k user ms = elim (Bool-cases (bytes_eq k user)) [
    | inl same ↦ rw same (
        subst
          (λ j.
            lookup user (keep_limited (lookup j limits) j ms) ≡ limited_only user (lookup user ms))
          (sym ((bytes_eq_iff k user).0 same)) (keep_self (lookup user limits) user ms))
    | inr other ↦ rw other (keep_other (lookup k limits) k user ms other)
  ]

  drop_lookup_in :
      (rest ms : Dict L) (user : Bytes)
      → lookup user (drop_unlimited limits rest ms) ≡ elim (lookup user rest) [
        | none ↦ lookup user ms
        | some l ↦ limited_only user (lookup user ms)
      ]
  unfolding drop_unlimited limited_only lookup
  drop_lookup_in [] ms user = refl
  drop_lookup_in ((k, l) ∷ rest) ms user = ground (
    arith,
    drop_lookup_in rest (keep_limited (lookup k limits) k ms) user,
    lookup-keep_limited k user ms,
  )

  drop_lookup :
      (ms : Dict L) (user : Bytes)
      → lookup user (drop_unlimited limits ms ms) ≡ limited_only user (lookup user ms)
  unfolding limited_only
  drop_lookup ms user = ground (arith, drop_lookup_in ms ms user)

module _ (rate : Limiters) where
  open rate use {Limiter}

  lookup-set_rates :
      (limits : Dict ℕ) (ms : Dict Limiter) (user : Bytes)
      → Distinct limits
      → lookup user (set_rates rate limits ms) ≡ elim (lookup user limits) [
        | none ↦ lookup user ms
        | some n ↦ some (set_rate rate n (lookup user ms))
      ]
  unfolding set_rates lookup
  lookup-set_rates [] ms user d = refl
  lookup-set_rates ((k, n) ∷ limits) ms user d = elim (Bool-cases (bytes_eq k user)) [
    | inl same ↦ rw same (
        subst
          (λ j.
            lookup user (set_rates rate limits (put j (set_rate rate n (lookup j ms)) ms))
            ≡ some (set_rate rate n (lookup user ms)))
          (sym ((bytes_eq_iff k user).0 same))
          (ground (
            arith,
            lookup-set_rates limits (put user (set_rate rate n (lookup user ms)) ms) user d.1,
            subst (λ j. lookup j limits ≡ none) ((bytes_eq_iff k user).0 same) d.0,
            lookup-put user user (set_rate rate n (lookup user ms)) ms,
            bytes_eq_refl user,
          )))
    | inr other ↦ rw other (
        ground (
          arith,
          lookup-set_rates limits (put k (set_rate rate n (lookup k ms)) ms) user d.1,
          lookup-put k user (set_rate rate n (lookup k ms)) ms,
        ))
  ]

  -- The bucket of a user who gets a rate, for the one that the user had before.
  unfoldable pub bucket : Option ℕ → Option Limiter → Option Limiter
  bucket none old = none
  bucket (some n) none = some (rate.new_limiter n (if ltb n 65536 then 65536 else n))
  bucket (some n) (some lim) =
      some (rate.set_burst (if ltb n 65536 then 65536 else n) (rate.set_limit n lim))

  set_rate-bucket :
      (o : Option ℕ) (old : Option Limiter)
      → elim o [ none ↦ none | some n ↦ some (set_rate rate n old) ] ≡ bucket o old
  unfolding set_rate limiter_burst bucket
  set_rate-bucket none old = refl
  set_rate-bucket (some n) none = refl
  set_rate-bucket (some n) (some lim) = refl

  -- Behind an Update a user has a token bucket exactly if an entry of the new configuration gives that
  -- name a positive rate, of which the last one counts. Who had no bucket gets a new one with that rate,
  -- and who had one keeps it, with its rate set to the new one; the burst is the rate, and at least 65536.
  pub limiter-update_rates :
      (users : List UserLimits) (r : UserRateRegistry Limiter) (user : Bytes)
      → limiter rate (update_rates rate users r) user
        ≡ bucket (rate_of user users) (limiter rate r user)
  unfolding limiter update_rates limited_only
  limiter-update_rates users r user =
      rw
        (lookup-set_rates (new_limits [] users)
          (drop_unlimited (new_limits [] users) r.limiters r.limiters) user
          (new_limits-Distinct users [] tt))
        (ground (arith, drop_lookup (new_limits [] users) r.limiters user))
      ∙ (set_rate-bucket (lookup user (new_limits [] users)) (lookup user r.limiters)
          ∙ ap (λ o. bucket o (lookup user r.limiters)) (rate_of-lookup users user))
