-- ===== src/Router/Forward/Sending.antt =====
-- Retries: `_send_with_retry`.
use oumigo.Prelude.{
  ℕ, zero, suc, ◌+◌, ◌≤◌, ◌<◌, ◌≡◌, ◌==◌, sym, subst, refl, ◌⊎◌, inl, inr, Option, some,
  if◌then◌else◌, leb, arith, Bool-cases,
}
use oumigo.Router.Forward.{Sent, response, retryable, failed, send_loop, send_with_retry}

module _ {ℓ} {A : Type ℓ} where
  -- The result `o` after `n` sends from the attempt `k` on: that of the last one, all before it having
  -- failed before a response, and it failed so only as the last that is allowed.
  pub record IsSent (send : ℕ → Sent A) (attempts k : ℕ) (o : Sent A) (n : ℕ) : Type ℓ where
    pub last : ℕ
    pub counted : n ≡ last + 1
    pub result : o ≡ send last
    pub from : k ≤ last
    pub in_range : last < attempts
    pub retried : (i : ℕ) → k ≤ i → i < last → send i ≡ retryable
    pub final : o ≡ retryable → last + 1 ≡ attempts

  Sent-cases : (s : Sent A) → ((a : A) × (s ≡ response a)) ⊎ ((s ≡ retryable) ⊎ (s ≡ failed))
  Sent-cases (response a) = inl (a, refl)
  Sent-cases retryable = inr (inl refl)
  Sent-cases failed = inr (inr refl)

  extend :
      (send : ℕ → Sent A) (attempts k : ℕ) (o : Sent A) (n : ℕ)
      → send k ≡ retryable
      → IsSent send attempts (k + 1) o n
      → IsSent send attempts k o n
  extend send attempts k o n e s = record {
    last = s.last;
    counted = s.counted;
    result = s.result;
    from = omega (arith, s.from);
    in_range = s.in_range;
    retried = λ i a b. elim (Bool-cases (i == k)) [
      | inl q ↦ subst (λ j. send j ≡ retryable) (sym (ground (arith, q))) e
      | inr q ↦ s.retried i (ground (arith, a, q)) b
    ];
    final = s.final;
  }

  at_once :
      (send : ℕ → Sent A) (attempts k : ℕ) (o : Sent A)
      → send k ≡ o
      → k < attempts
      → (o ≡ retryable → k + 1 ≡ attempts)
      → IsSent send attempts k o (k + 1)
  at_once send attempts k o e h f = record {
    last = k;
    counted = refl;
    result = sym e;
    from = omega arith;
    in_range = h;
    retried = λ i a b. absurd (omega (arith, a, b));
    final = f;
  }

  -- What a run of the loop gives.
  IsEnded : (ℕ → Sent A) → ℕ → ℕ → Option (Sent A × ℕ) → Type ℓ
  IsEnded send attempts k r =
      (o : Sent A) × (n : ℕ) × (r ≡ some (o, n)) × IsSent send attempts k o n

  step-IsEnded :
      (send : ℕ → Sent A) (attempts k : ℕ) (rest : Option (Sent A × ℕ))
      → k < attempts
      → (k + 1 < attempts → IsEnded send attempts (k + 1) rest)
      → IsEnded send attempts k (elim (send k) [
        | response a ↦ some (response a, k + 1)
        | failed ↦ some (failed, k + 1)
        | retryable ↦ if leb attempts (k + 1) then some (retryable, k + 1) else rest
      ])
  unfolding IsEnded
  step-IsEnded send attempts k rest h next = elim (Sent-cases (send k)) [
    | inl (a, e) ↦ (
      response a,
      k + 1,
      rw e refl,
      at_once send attempts k (response a) e h (λ f. absurd (cc f)),
    )
    | inr (inr e) ↦
        (failed, k + 1, rw e refl, at_once send attempts k failed e h (λ f. absurd (cc f)))
    | inr (inl e) ↦ elim (Bool-cases (leb attempts (k + 1))) [
      | inl l ↦ (
        retryable,
        k + 1,
        rw (e, l) refl,
        at_once send attempts k retryable e h (λ f. ground (arith, l, h)),
      )
      | inr l ↦
          let (o, n, q, s) = next (ground (arith, l)) in
          (o, n, rw (e, l) q, extend send attempts k o n e s)
    ]
  ]

  send_loop-IsEnded :
      (left : ℕ) (send : ℕ → Sent A) (attempts k : ℕ)
      → attempts ≡ k + left
      → k < attempts
      → IsEnded send attempts k (send_loop left send attempts k)
  unfolding send_loop
  send_loop-IsEnded zero send attempts k h l = absurd (omega (arith, h, l))
  send_loop-IsEnded (suc left) send attempts k h l =
      step-IsEnded send attempts k _ l
        (send_loop-IsEnded left send attempts (k + 1) (omega (arith, h)))

  -- With at least one attempt, a send with retries ends, after at most that many sends, with what the
  -- last of them gave; all sends before it failed before a response, so that no response is ever
  -- followed by another send; and it fails in that way only after the last attempt.
  pub send_with_retry_ends :
      (send : ℕ → Sent A) (attempts : ℕ)
      → 1 ≤ attempts
      → (o : Sent A) × (n : ℕ) × (send_with_retry send attempts ≡ some (o, n))
        × IsSent send attempts 0 o n
  unfolding send_with_retry IsEnded
  send_with_retry_ends send attempts h =
      send_loop-IsEnded attempts send attempts 0 (omega arith) (omega (arith, h))
