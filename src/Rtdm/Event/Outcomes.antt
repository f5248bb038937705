-- ===== src/Rtdm/Event/Outcomes.antt =====
-- What the waits for an event return.
use rtdm_native.Prelude.{◌≡◌, ◌⊎◌, inl, inr, refl, arith, true, false, ◌||◌, Bool-cases, some}
use rtdm_native.Rtdm.Errno.{Status, ok, err, eintr, eidrm}
use rtdm_native.Rtdm.Event.{
  Event, Look, event_clear, after_calls, woken_up, event_wait_slow, event_wait,
}

-- A wait that returns 0 has taken the event, which is not closed; one that fails says that the event
-- is closed, or that a signal was met.
abbrev pub Fits : Look → Look → Status × Event → Type 0
Fits first woken (ok _, e) = (e.pending ≡ false) × (e.destroyed ≡ false)
Fits first woken (err x, e) =
    ((x ≡ eidrm) × (e.destroyed ≡ true))
    ⊎ ((x ≡ eintr) × ((first.signalled || woken.signalled) ≡ true) × (e.destroyed ≡ false))

-- A task that is woken returns from `rtdm_event_wait`, whatever it meets: with 0 and the event
-- taken and not closed, with -EIDRM only from a closed event, or with -EINTR only after a signal.
pub event_wait-Fits :
    (first woken : Look) (e : Event)
    → (r : Status × Event) × (event_wait first (some woken) e ≡ some r) × Fits first woken r
unfolding event_wait event_wait_slow woken_up event_clear
event_wait-Fits first woken e = elim (Bool-cases e.destroyed) [
  | inl h₁ ↦ ((err eidrm, e), ground (arith, h₁), inl (refl, h₁))
  | inr h₁ ↦ elim (Bool-cases e.pending) [
    | inl h₂ ↦ ((ok tt, event_clear e), ground (arith, h₁, h₂), (refl, h₁))
    | inr h₂ ↦ elim (Bool-cases e₁.destroyed) [
      | inl h₃ ↦ ((err eidrm, e₁), ground (arith, h₁, h₂, h₃), inl (refl, h₃))
      | inr h₃ ↦ elim (Bool-cases first.signalled) [
        | inl h₄ ↦
            ((err eintr, e₁), ground (arith, h₁, h₂, h₃, h₄), inr (refl, ground (arith, h₄), h₃))
        | inr h₄ ↦ elim (Bool-cases e₁.pending) [
          | inl h₅ ↦ ((ok tt, event_clear e₁), ground (arith, h₁, h₂, h₃, h₄, h₅), (refl, h₃))
          | inr h₅ ↦ elim (Bool-cases e₂.destroyed) [
            | inl h₆ ↦ ((err eidrm, e₂), ground (arith, h₁, h₂, h₃, h₄, h₅, h₆), inl (refl, h₆))
            | inr h₆ ↦ elim (Bool-cases woken.signalled) [
              | inl h₇ ↦ (
                (err eintr, e₂),
                ground (arith, h₁, h₂, h₃, h₄, h₅, h₆, h₇),
                inr (refl, ground (arith, h₇), h₆),
              )
              | inr h₇ ↦
                  ((ok tt, event_clear e₂), ground (arith, h₁, h₂, h₃, h₄, h₅, h₆, h₇), (refl, h₆))
            ]
          ]
        ]
      ]
    ]
  ]
]
  where
    e₁ : Event
    e₁ = after_calls first.calls e

    e₂ : Event
    e₂ = after_calls woken.calls e₁
