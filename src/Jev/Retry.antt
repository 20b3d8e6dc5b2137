-- ===== src/Jev/Retry.antt =====
-- How often the client asks, and whose answer it takes.
use colloq.Prelude.{
  ℕ, suc, ◌+◌, ◌≤◌, ◌<◌, ◌≡◌, refl, sym, ap, subst, eq_of_eqb, inl, inr, Option, none, some, List,
  [], ◌∷◌, length, true, eqb, Result, err, arith, Bool-cases,
}
use package.colloq.Jev.{
  ChoiceAnswer, JevError, unavailable, JsonValue, HttpResponse, final_answer, retryable, ended,
  retried, attempts, choose,
}

module _ {V F : Type 0} (value : JsonValue V (ChoiceAnswer F))
    (responses : ℕ → Option (HttpResponse V)) where
  -- What the client makes of one attempt that it does not repeat.
  abbrev pub outcome : Option (HttpResponse V) → Result JevError (ChoiceAnswer F)
  outcome none = err unavailable
  outcome (some r) = final_answer value r

  abbrev pub Again : Option (HttpResponse V) → Type 0
  Again none = ⊥
  Again (some r) = retryable value r ≡ true

  -- The attempts from `start` to `last`: each but the last was told to try again, and the last
  -- one was not, unless there was none left.
  pub record Asked (start left : ℕ) (p : Result JevError (ChoiceAnswer F) × ℕ) : Type 0 where
    pub last : ℕ
    pub count : p.1 ≡ last + 1
    pub from : start ≤ last
    pub bound : last ≤ start + left
    pub result : p.0 ≡ outcome (responses last)
    pub again : (i : ℕ) → start ≤ i → i < last → Again (responses i)
    pub final : last < start + left → ¬ Again (responses last)

  stops :
      (start left : ℕ) (p : Result JevError (ChoiceAnswer F) × ℕ)
      → p ≡ (outcome (responses start), start + 1)
      → (0 < left → ¬ Again (responses start))
      → Asked start left p
  stops start left p e n = record {
    last = start;
    count = ap (λ q. q.1) e;
    from = omega arith;
    bound = omega arith;
    result = ap (λ q. q.0) e;
    again = λ i h k. absurd (omega (arith, h, k));
    final = λ h. n (omega (arith, h));
  }

  repeats :
      (start left : ℕ) (p : Result JevError (ChoiceAnswer F) × ℕ)
      → Again (responses start)
      → Asked (suc start) left p
      → Asked start (suc left) p
  repeats start left p a k = record {
    last = k.last;
    count = k.count;
    from = omega (arith, k.from);
    bound = omega (arith, k.bound);
    result = k.result;
    again = λ i h l. elim (Bool-cases (eqb i start)) [
      | inl e ↦ subst (λ j. Again (responses j)) (sym (eq_of_eqb {a = i} {b = start} e)) a
      | inr e ↦ k.again i (ground (arith, e, h)) l
    ];
    final = λ h. k.final (omega (arith, h));
  }

  ended-outcome :
      (start : ℕ) (o : Option (HttpResponse V)) → ended value o start ≡ (outcome o, start + 1)
  unfolding ended
  ended-outcome start none = refl
  ended-outcome start (some r) = refl

  -- One round, by what its response is.
  round-Asked :
      (start left : ℕ) (more : Result JevError (ChoiceAnswer F) × ℕ) (o : Option (HttpResponse V))
      → responses start ≡ o
      → Asked (suc start) left more
      → Asked start (suc left) (retried value o start more)
  unfolding retried
  round-Asked start left more none e k =
      stops start (suc left) _ (ap (λ o. (outcome o, start + 1)) (sym e)) (λ h a. subst Again e a)
  round-Asked start left more (some r) e k = elim (Bool-cases (retryable value r)) [
    | inl t ↦ rw t (repeats start left more (subst Again (sym e) t) k)
    | inr t ↦ rw t (
        stops start (suc left) (final_answer value r, start + 1)
          (ap (λ o. (outcome o, start + 1)) (sym e)) (λ h a. cc (t, subst Again e a)))
  ]

  attempts-Asked :
      (backoff : List ℕ) (start : ℕ)
      → Asked start (length backoff) (attempts value responses backoff start)
  unfolding attempts
  attempts-Asked [] start =
      stops start 0 (ended value (responses start) start) (ended-outcome start (responses start))
        (λ h. absurd (omega (arith, h)))
  attempts-Asked (delay ∷ backoff) start =
      round-Asked start (length backoff) (attempts value responses backoff (suc start))
        (responses start) refl (attempts-Asked backoff (suc start))

  -- The client asks at most three times: every attempt before the last one was answered with a
  -- status 429 or 529, the last one was not, unless it was the third, and the result is what the
  -- last response gives.
  pub choose-Asked : Asked 0 2 (choose value responses)
  unfolding choose
  choose-Asked = attempts-Asked (250 ∷ 1000 ∷ []) 0
