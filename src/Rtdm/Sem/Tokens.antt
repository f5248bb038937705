-- ===== src/Rtdm/Sem/Tokens.antt =====
-- What a semaphore's waits do to its tokens.
use rtdm_native.Prelude.{
  ℕ, zero, suc, ◌+◌, ◌≡◌, refl, sym, ap, ◌∙◌, subst, some-injective, arith, Bool, true, false, ◌||◌,
}
use rtdm_native.Prelude.{List, [], ◌∷◌, Option, none, some, Bool-cases, ◌⊎◌, take, inl, inr}
use rtdm_native.Prelude.Int.{ℤ, pos, ◌+ℤ◌, ◌-ℤ◌, ltb_ℤ, int_laws}
use rtdm_native.Rtdm.Errno.{ok, err, Status}
use rtdm_native.Rtdm.Sem.{
  Sem, Turn, sem_up, sem_ups, sem_destroy, meet, joined, round, down_loop, sem_timeddown,
  sem_timeddown_slow, leave,
}

-- The tokens that are there to take: the task that waits is counted out of `count` again.
abbrev pub tokens : Sem → ℤ
tokens s = s.count +ℤ pos s.sleepers

-- How many calls of `rtdm_sem_up` the turns hold.
abbrev pub all_ups : List Turn → ℕ
all_ups [] = 0
all_ups (t ∷ ts) = t.ups + all_ups ts

abbrev pub taken : Status → ℕ
taken (ok _) = 1
taken (err _) = 0

sem_up-tokens : (s : Sem) → tokens (sem_up s) ≡ tokens s +ℤ pos 1
unfolding sem_up
sem_up-tokens s = omega int_laws

sem_ups-tokens : (n : ℕ) (s : Sem) → tokens (sem_ups n s) ≡ tokens s +ℤ pos n
unfolding sem_ups
sem_ups-tokens zero s = omega int_laws
sem_ups-tokens (suc n) s = rw (sem_ups-tokens n (sem_up s), sem_up-tokens s) (omega int_laws)

meet-tokens : (t : Turn) (s : Sem) → tokens (meet t s) ≡ tokens s +ℤ pos t.ups
unfolding meet sem_destroy
meet-tokens t s = elim (Bool-cases t.destroy) [
  | inl e ↦ rw e (sem_ups-tokens t.ups s)
  | inr e ↦ rw e (sem_ups-tokens t.ups s)
]

-- The tokens that a round has taken out.
abbrev out : Option Status → ℕ
out (some ret) = taken ret
out none = 0

leave-tokens : (s : Sem) → tokens (leave s) ≡ tokens s
unfolding leave
leave-tokens s = omega int_laws

sleep-tokens : (s : Sem) → joined s +ℤ pos 1 ≡ tokens s
sleep-tokens s = omega int_laws

take-tokens : (s : Sem) → joined s +ℤ pos 0 +ℤ pos 1 ≡ tokens s
take-tokens s = omega int_laws

add_zero : (a : ℤ) → a ≡ a +ℤ pos 0
add_zero a = omega int_laws

round-tokens :
    (timed : Bool) (t : Turn) (s : Sem)
    → tokens s ≡ tokens (round timed t s).1 +ℤ pos (out (round timed t s).0)
unfolding round
round-tokens timed t s = ground (
  arith,
  add_zero (tokens s),
  leave-tokens s,
  sleep-tokens s,
  take-tokens s,
  add_zero (joined s +ℤ pos 1),
)

abbrev pub Balanced : List Turn → Sem → Status × Sem → Type 0
Balanced ts s r =
    (n : ℕ) × (tokens s +ℤ pos (all_ups (take n ts)) ≡ tokens (r.1) +ℤ pos (taken (r.0)))

last_turn :
    (a c : ℤ) {b : ℤ} (m k : ℕ) → b ≡ a +ℤ pos m → b ≡ c +ℤ pos k → a +ℤ pos (m + 0) ≡ c +ℤ pos k
last_turn a c m k p q = ap (λ x. a +ℤ pos x) (omega arith) ∙ sym p ∙ q

next_turn :
    (a c : ℤ) {b : ℤ} (m n : ℕ) → b ≡ a +ℤ pos m → b ≡ c +ℤ pos 0 → a +ℤ pos (m + n) ≡ c +ℤ pos n
next_turn a c m n p q = split ∙ ap (λ x. x +ℤ pos n) (sym p ∙ q) ∙ join
  where
    split : a +ℤ pos (m + n) ≡ a +ℤ pos m +ℤ pos n
    split = omega int_laws

    join : c +ℤ pos 0 +ℤ pos n ≡ c +ℤ pos n
    join = omega int_laws

down_loop-Balanced :
    (timed : Bool) (ts : List Turn) (s : Sem) {r : Status × Sem}
    → down_loop timed ts s ≡ some r
    → Balanced ts s r
unfolding down_loop
down_loop-Balanced timed [] s h = cc
down_loop-Balanced timed (t ∷ ts) s {r} h =
    go (λ s'. down_loop-Balanced timed ts s') (round timed t (meet t s)) refl h
  where
    spent :
        {o : Option Status} {s' : Sem}
        → round timed t (meet t s) ≡ (o, s')
        → tokens (meet t s) ≡ tokens s' +ℤ pos (out o)
    spent e = rw e at (round-tokens timed t (meet t s))

    go :
        ((s' : Sem) → down_loop timed ts s' ≡ some r → Balanced ts s' r)
        → (o : Option Status × Sem) → round timed t (meet t s) ≡ o
        → (elim (o.0) [ some ret ↦ some (ret, o.1) | none ↦ down_loop timed ts (o.1) ]) ≡ some r
        → Balanced (t ∷ ts) s r
    go ih (some ret, s') e h' =
        subst (λ x. Balanced (t ∷ ts) s x) (some-injective _ _ h')
          (1, last_turn (tokens s) (tokens s') t.ups (taken ret) (meet-tokens t s) (spent e))
    go ih (none, s') e h' =
        let (n, later) = ih s' h' in
        (
          suc n,
          next_turn (tokens s) (tokens s') t.ups (all_ups (take n ts)) (meet-tokens t s) (spent e)
              ∙ later,
        )

-- A wait on a semaphore that is not closed when the call begins is balanced: once `rtdm_sem_timeddown`
-- returns, the tokens before it and those added in the turns it has used are the tokens after it and the
-- one it has taken. It takes one if it returns 0 and none if it fails: because it was closed meanwhile,
-- interrupted, timed out or would block.
pub sem_timeddown_balance :
    (timeout : ℤ) (ts : List Turn) (s : Sem) {r : Status × Sem}
    → s.destroyed ≡ false
    → sem_timeddown timeout ts s ≡ some r
    → Balanced ts s r
unfolding sem_timeddown sem_timeddown_slow
sem_timeddown_balance timeout ts s {r} alive =
    go (Bool-cases (ltb_ℤ (s.count -ℤ pos 1) (pos 0))) (Bool-cases (ltb_ℤ timeout (pos 0)))
  where
    fast : tokens s +ℤ pos 0 ≡ s.count -ℤ pos 1 +ℤ pos s.sleepers +ℤ pos 1
    fast = omega int_laws

    blocked : tokens s +ℤ pos 0 ≡ s.count -ℤ pos 1 +ℤ (pos s.sleepers +ℤ pos 1) +ℤ pos 0 +ℤ pos 0
    blocked = omega int_laws

    entered : tokens (record s { count = s.count -ℤ pos 1; sleepers = suc s.sleepers }) ≡ tokens s
    entered = omega int_laws

    go :
        (ltb_ℤ (s.count -ℤ pos 1) (pos 0) ≡ true) ⊎ (ltb_ℤ (s.count -ℤ pos 1) (pos 0) ≡ false)
        → (ltb_ℤ timeout (pos 0) ≡ true) ⊎ (ltb_ℤ timeout (pos 0) ≡ false)
        → sem_timeddown timeout ts s ≡ some r
        → Balanced ts s r
    go (inr free) _ h = subst (Balanced ts s) (some-injective _ _ (rw free at h)) (0, fast)
    go (inl taken_up) (inl now) h =
        subst (Balanced ts s) (some-injective _ _ (rw (taken_up, alive, now) at h)) (0, blocked)
    go (inl taken_up) (inr later) h =
        let (n, e) = down_loop-Balanced _ ts _ (rw (taken_up, alive, later) at h) in
        (n, rw entered at e)

-- A turn after which the task does not sleep on: a signal, or the end of the semaphore.
abbrev pub ends : Turn → Bool
ends t = t.signalled || t.destroy

abbrev pub some_ends : List Turn → Bool
some_ends [] = false
some_ends (t ∷ ts) = ends t || some_ends ts

round-ends :
    (timed : Bool) (t : Turn) (s s' : Sem) → round timed t (meet t s) ≡ (none, s') → ends t ≡ false
unfolding round meet sem_destroy
round-ends timed t s s' h = ground (arith, h)

down_loop-returns :
    (timed : Bool) (ts : List Turn) (s : Sem)
    → some_ends ts ≡ true
    → (r : Status × Sem) × (down_loop timed ts s ≡ some r)
unfolding down_loop
down_loop-returns timed [] s h = absurd (ground (arith, h))
down_loop-returns timed (t ∷ ts) s h =
    go (down_loop-returns timed ts) (round timed t (meet t s)) refl
  where
    go :
        ((s' : Sem) → some_ends ts ≡ true → (r : Status × Sem) × (down_loop timed ts s' ≡ some r))
        → (o : Option Status × Sem) → round timed t (meet t s) ≡ o
        → (r : Status × Sem) × ((elim (o.0) [
          | some ret ↦ some (ret, o.1)
          | none ↦ down_loop timed ts (o.1)
        ])
            ≡ some r)
    go ih (some ret, s') e = ((ret, s'), refl)
    go ih (none, s') e = ih s' (ground (arith, h, round-ends timed t s s' e))

-- On a semaphore that is not closed, `rtdm_sem_timeddown` returns when one of the task's turns meets a
-- signal or the end of the semaphore, whatever the others meet, and the wait is balanced.
pub sem_timeddown-completes :
    (timeout : ℤ) (ts : List Turn) (s : Sem)
    → s.destroyed ≡ false
    → some_ends ts ≡ true
    → (r : Status × Sem) × (sem_timeddown timeout ts s ≡ some r) × Balanced ts s r
unfolding sem_timeddown sem_timeddown_slow
sem_timeddown-completes timeout ts s alive e =
    let (r, h) = returns in (r, h, sem_timeddown_balance timeout ts s alive h)
  where
    returns : (r : Status × Sem) × (sem_timeddown timeout ts s ≡ some r)
    returns = elim (Bool-cases (ltb_ℤ (s.count -ℤ pos 1) (pos 0))) [
      | inr free ↦ rw free (_, refl)
      | inl taken_up ↦ elim (Bool-cases (ltb_ℤ timeout (pos 0))) [
        | inl now ↦ rw (taken_up, alive, now) (_, refl)
        | inr later ↦ rw (taken_up, alive, later) (down_loop-returns _ ts _ e)
      ]
    ]
