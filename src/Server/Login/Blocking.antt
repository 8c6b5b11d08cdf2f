-- ===== src/Server/Login/Blocking.antt =====
-- server.go: what a login leaves of a block, and how a blocked address is answered.
use sftp2s.Prelude.{
  ℕ, ◌+◌, ◌<◌, Bool, true, false, Bytes, bytes_eq, bytes_eq_iff, bytes_eq_refl, lookup, lookup-put,
  lookup-delete, some, ◌≡◌, inl, inr, refl, sym, subst, Bool-cases, arith, String,
}
use sftp2s.Result.{err, message}
use sftp2s.Failures.{
  FailureTracker, record_failure, count_failure, prune_attempts, is_blocked, holds,
}
use sftp2s.Server.Login.{Login, callback, check_blocked, tarpit_login, tarpit, note_failure}

-- The tracker holds a block of the address until the time.
abbrev pub Blocked : Bytes → ℕ → Login → Type 0
Blocked remote until l =
    (t : FailureTracker) × (l.tracker ≡ some t) × (lookup remote t.blocked ≡ some until)

-- Each of the steps of a tracker keeps it, before its end.
is_blocked-keeps :
    (remote other : Bytes) (until now : ℕ) (t : FailureTracker)
    → lookup remote t.blocked ≡ some until
    → now < until
    → lookup remote (is_blocked other now t).0.blocked ≡ some until
unfolding is_blocked holds
is_blocked-keeps remote other until now t h before = elim (Bool-cases (bytes_eq other remote)) [
  | inl same ↦
      subst (λ o. lookup remote (is_blocked o now t).0.blocked ≡ some until)
        (sym ((bytes_eq_iff other remote).0 same)) (ground (arith, h, before))
  | inr apart ↦ ground (arith, h, lookup-delete other remote t.blocked)
]

record_failure-keeps :
    (remote other : Bytes) (until now : ℕ) (t : FailureTracker)
    → lookup remote t.blocked ≡ some until
    → bytes_eq other remote ≡ false
    → lookup remote (record_failure other now t).0.blocked ≡ some until
unfolding record_failure count_failure prune_attempts
record_failure-keeps remote other until now t h apart =
    ground (arith, h, lookup-put other remote (now + t.block_duration) t.blocked)

-- The address itself is answered with a block.
check_blocked_self :
    (remote : Bytes) (until now : ℕ) (l : Login)
    → Blocked remote until l
    → now < until
    → (check_blocked remote now l).1 ≡ true
unfolding check_blocked is_blocked holds
check_blocked_self remote until now l (t, e, h) before = ground (arith, e, h, before)

-- So who is not answered with a block is another address.
other_address :
    (remote other : Bytes) (until now : ℕ) (l : Login)
    → Blocked remote until l
    → now < until
    → (check_blocked other now l).1 ≡ false
    → bytes_eq other remote ≡ false
other_address remote other until now l h before free = elim (Bool-cases (bytes_eq other remote)) [
  | inl same ↦
      let blocked =
        subst (λ o. (check_blocked o now l).1 ≡ true) (sym ((bytes_eq_iff other remote).0 same))
          (check_blocked_self remote until now l h before) in
      absurd (ground (arith, blocked, free))
  | inr apart ↦ apart
]

check_blocked-Blocked :
    (remote other : Bytes) (until now : ℕ) (l : Login)
    → Blocked remote until l
    → now < until
    → Blocked remote until (check_blocked other now l).0
unfolding check_blocked
check_blocked-Blocked remote other until now l (t, e, h) before = (
  (is_blocked other now t).0,
  ground (arith, e),
  is_blocked-keeps remote other until now t h before,
)

tarpit_login-Blocked :
    (remote other : Bytes) (until now : ℕ) (l : Login)
    → Blocked remote until l
    → now < until
    → Blocked remote until (tarpit_login other now l)
unfolding tarpit_login tarpit
tarpit_login-Blocked remote other until now l (t, e, h) before = (
  tarpit other now t,
  ground (arith, e),
  ground (arith, h, is_blocked-keeps remote other until now t h before),
)

note_failure-Blocked :
    (remote other : Bytes) (until now : ℕ) (l : Login)
    → Blocked remote until l
    → bytes_eq other remote ≡ false
    → Blocked remote until (note_failure other now l)
unfolding note_failure
note_failure-Blocked remote other until now l (t, e, h) apart = (
  (record_failure other now t).0,
  ground (arith, e),
  record_failure-keeps remote other until now t h apart,
)

pub callback-Blocked :
    (accepts : Bool) (refusal : String) (remote other : Bytes) (until now : ℕ) (l : Login)
    → Blocked remote until l
    → now < until
    → Blocked remote until (callback accepts refusal other now l).1
unfolding callback
callback-Blocked accepts refusal remote other until now l h before =
    let c = check_blocked other now l in
    let kept = check_blocked-Blocked remote other until now l h before in
    elim (Bool-cases c.1) [
      | inl blocked ↦ rw blocked (tarpit_login-Blocked remote other until now c.0 kept before)
      | inr free ↦ rw free (elim (Bool-cases accepts) [
        | inl good ↦ rw good kept
        | inr bad ↦ rw bad (
            note_failure-Blocked remote other until now c.0 kept
              (other_address remote other until now l h before free))
      ])
    ]

pub callback_self :
    (accepts : Bool) (refusal : String) (remote : Bytes) (until now : ℕ) (l : Login)
    → Blocked remote until l
    → now < until
    → (callback accepts refusal remote now l).0 ≡ err (message "blocked")
unfolding callback
callback_self accepts refusal remote until now l h before =
    rw (check_blocked_self remote until now l h before) refl

pub note_failure-Blocked_now :
    (remote : Bytes) (now : ℕ) (l : Login) (t : FailureTracker)
    → l.tracker ≡ some t
    → (record_failure remote now t).1 ≡ true
    → Blocked remote (now + t.block_duration) (note_failure remote now l)
unfolding note_failure record_failure count_failure prune_attempts
note_failure-Blocked_now remote now l t e crossed = (
  (record_failure remote now t).0,
  ground (arith, e),
  ground (
    arith,
    crossed,
    lookup-put remote remote (now + t.block_duration) t.blocked,
    bytes_eq_refl remote,
  ),
)
