-- ===== src/Fault/Once.antt =====
-- How often a failure is injected.
use colloq.Prelude.{
  ℕ, ◌+◌, ◌<◌, ◌^◌, ◌≡◌, ◌≢◌, refl, String, Option, List, [], ◌∷◌, Bool, true, false, ◌&&◌, ◌==◌,
  eqb, leb, if◌then◌else◌, length, arith, Bool-cases, eq_of_eqb, ok, ok≢err, ok_inj, sym, subst,
  inl, inr,
}
use colloq.Runtime.Error.{FaultOperation}
use colloq.Fault.{
  FaultPlan, Injector, same_operation, next_count, counted, occurrence, should_inject, with_fired,
}

-- How many of some operations are of one kind.
abbrev pub count : FaultOperation → List FaultOperation → ℕ
count o [] = 0
count o (p ∷ ps) = (if same_operation p o then 1 else 0) + count o ps

-- How many of some operations fail.
abbrev pub injections : Injector → List FaultOperation → ℕ
injections t [] = 0
injections t (o ∷ os) =
    (if (should_inject t o).0 then 1 else 0) + injections (should_inject t o).1 os

module _ (role : String) (plan : FaultPlan) where
  abbrev counting : ℕ → ℕ → Bool → Injector
  counting s r f = record { role = role; plan = plan; sends = s; receives = r; fired = f }

  injections_fired : (s r : ℕ) (os : List FaultOperation) → injections (counting s r true) os ≡ 0
  unfolding should_inject counted occurrence
  injections_fired s r [] = refl
  injections_fired s r (FaultOperation.send ∷ os) =
      omega (arith, injections_fired (next_count s) r os)
  injections_fired s r (FaultOperation.receive ∷ os) =
      omega (arith, injections_fired s (next_count r) os)

  -- Another role's transport injects nothing.
  injections_other :
      (role == plan.role) ≡ false
      → (s r : ℕ) (f : Bool) (os : List FaultOperation) → injections (counting s r f) os ≡ 0
  unfolding should_inject counted occurrence
  injections_other h s r true os = injections_fired s r os
  injections_other h s r false [] = refl
  injections_other h s r false (FaultOperation.send ∷ os) =
      rw h (omega (arith, injections_other h (next_count s) r false os))
  injections_other h s r false (FaultOperation.receive ∷ os) =
      rw h (omega (arith, injections_other h s (next_count r) false os))

ne_of_eqb : {a b : ℕ} → eqb a b ≡ false → a ≢ b
ne_of_eqb h e = ground arith

next_count_lem : (n : ℕ) → n + 1 < 2 ^ 64 → next_count n ≡ n + 1
next_count_lem n h = omega arith

module _ (role prole failure : String) (peer : Option String) (k : ℕ)
    (same : (role == prole) ≡ true) where
  abbrev plan_at : FaultOperation → FaultPlan
  plan_at o = record {
    role = prole;
    operation = o;
    occurrence = k;
    failure = failure;
    peer_failure = peer;
  }

  -- The operation that the plan names is counted up to the number of the plan.
  injections_send :
      (s r : ℕ) (os : List FaultOperation)
      → s < k
      → s + length os < 2 ^ 64
      → injections (counting role (plan_at FaultOperation.send) s r false) os
        ≡ (if leb k (s + count FaultOperation.send os) then 1 else 0)
  unfolding should_inject counted occurrence
  injections_send s r [] below small = ground arith
  injections_send s r (FaultOperation.send ∷ os) below small =
      let step = next_count_lem s (omega arith) in
      elim (Bool-cases (eqb (next_count s) k)) [
        | inl e ↦
            let p = eq_of_eqb e in
            let rest = injections_fired role (plan_at FaultOperation.send) (next_count s) r os in
            rw (same, e) (ground arith)
        | inr e ↦
            let p = ne_of_eqb e in
            let rest = injections_send (next_count s) r os (omega arith) (omega arith) in
            rw (same, e) (ground arith)
      ]
  injections_send s r (FaultOperation.receive ∷ os) below small =
      let rest = injections_send s (next_count r) os below (omega arith) in rw same (ground arith)

  injections_receive :
      (s r : ℕ) (os : List FaultOperation)
      → r < k
      → r + length os < 2 ^ 64
      → injections (counting role (plan_at FaultOperation.receive) s r false) os
        ≡ (if leb k (r + count FaultOperation.receive os) then 1 else 0)
  unfolding should_inject counted occurrence
  injections_receive s r [] below small = ground arith
  injections_receive s r (FaultOperation.receive ∷ os) below small =
      let step = next_count_lem r (omega arith) in
      elim (Bool-cases (eqb (next_count r) k)) [
        | inl e ↦
            let p = eq_of_eqb e in
            let rest = injections_fired role (plan_at FaultOperation.receive) s (next_count r) os in
            rw (same, e) (ground arith)
        | inr e ↦
            let p = ne_of_eqb e in
            let rest = injections_receive s (next_count r) os (omega arith) (omega arith) in
            rw (same, e) (ground arith)
      ]
  injections_receive s r (FaultOperation.send ∷ os) below small =
      let rest = injections_receive (next_count s) r os below (omega arith) in
      rw same (ground arith)

  injections_own :
      (o : FaultOperation) (os : List FaultOperation)
      → 0 < k
      → length os < 2 ^ 64
      → injections (counting role (plan_at o) 0 0 false) os ≡ (if leb k (count o os) then 1 else 0)
  injections_own FaultOperation.send os pos small =
      let g = injections_send 0 0 os pos (omega arith) in ground arith
  injections_own FaultOperation.receive os pos small =
      let g = injections_receive 0 0 os pos (omega arith) in ground arith

-- Of fewer than `2 ^ 64` operations of a new transport with a fault plan, whose flag `fired` is
-- not set, exactly one is injected with the failure if the role is the plan's and the plan's
-- operation comes at least as often as the plan says, and none otherwise.
pub injections-with_fired :
    (role : String) (plan : FaultPlan) (t : Injector) (os : List FaultOperation)
    → with_fired role plan false ≡ ok t
    → length os < 2 ^ 64
    → injections t os
      ≡ (if role == plan.role && leb plan.occurrence (count plan.operation os) then 1 else 0)
unfolding with_fired
injections-with_fired role plan t os h small = elim (Bool-cases (eqb plan.occurrence 0)) [
  | inl e ↦ absurd (ok≢err (sym (rw (e, with_fired) at h)))
  | inr e ↦
      let p = ne_of_eqb e in
      subst
        (λ u.
          injections u os
          ≡ (if role == plan.role && leb plan.occurrence (count plan.operation os) then 1 else 0))
        (ok_inj (rw (e, with_fired) at h))
        (elim (Bool-cases (role == plan.role)) [
          | inl same ↦ rw same (
              injections_own role plan.role plan.failure plan.peer_failure plan.occurrence same
                plan.operation os (omega arith) small)
          | inr other ↦ rw other (injections_other role plan other 0 0 false os)
        ])
]
