-- ===== src/Pipeline/Sink.antt =====
-- The sink under back-pressure.
use fix_mon.Prelude.{
  ℕ, zero, suc, ◌+◌, ◌%◌, ◌^◌, ◌<◌, Bool, ◌≡◌, refl, inl, inr, ◌⊎◌, Bool-cases, arith,
}
use fix_mon.Pipeline.{Pressure, wait_rounds, sink}

-- taken by the queue, or counted as dropped: one of the two and not both
abbrev pub IsSettled : Pressure → Pressure → Type 0
IsSettled p q =
    ((q.delivered ≡ p.delivered + 1) × (q.dropped ≡ p.dropped))
    ⊎ ((q.delivered ≡ p.delivered) × (q.dropped ≡ p.dropped + 1))

wait_rounds-IsSettled :
    (n : ℕ) (stop try_push : ℕ → Bool) (p : Pressure)
    → p.dropped + 1 < 2 ^ 64
    → IsSettled p (wait_rounds n stop try_push p)
unfolding wait_rounds
wait_rounds-IsSettled zero stop try_push p h = inr (refl, omega arith)
wait_rounds-IsSettled (suc n) stop try_push p h = elim (Bool-cases (stop 0)) [
  | inl e ↦ rw e (inr (refl, omega arith))
  | inr e ↦ elim (Bool-cases (try_push 0)) [
    | inl f ↦ rw (e, f) (inl (refl, refl))
    | inr f ↦ rw (e, f) (wait_rounds-IsSettled n (λ i. stop (suc i)) (λ i. try_push (suc i)) p h)
  ]
]

-- Whatever the queue and the stop flag say while the sink waits, it comes to an end for each event,
-- which the queue has then taken once or which is counted as dropped.
pub sink-IsSettled :
    (wait_ms : ℕ) (stop try_push : ℕ → Bool) (p : Pressure)
    → p.dropped + 1 < 2 ^ 64
    → IsSettled p (sink wait_ms stop try_push p)
unfolding sink
sink-IsSettled wait_ms stop try_push p h = elim (Bool-cases (try_push 0)) [
  | inl e ↦ rw e (inl (refl, refl))
  | inr e ↦ rw e (
      wait_rounds-IsSettled wait_ms stop (λ i. try_push (suc i))
        (record p { waits = (p.waits + 1) % 2 ^ 64 }) h)
]
