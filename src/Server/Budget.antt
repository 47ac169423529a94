-- ===== src/Server/Budget.antt =====
-- internal/server/budget.go: inFlightBudget. The mutex makes each operation one step.
use general_webhook.Base.{
  ℕ, ◌+◌, ◌-◌, ◌≤◌, ℤ, pos, negsuc, Bool, true, false, List, [], ◌∷◌, ◌≡◌, refl, sym, ◌∙◌, ap,
  subst, arith, leb, ltb, ◌==◌, if◌then◌else◌, Bool-cases, inl, inr,
}

pub record Budget : Type 0 where
  pub max_conns : ℕ
  pub max_bytes : ℕ
  pub conns : ℕ
  pub bytes : ℕ

-- `if v <= 0 { v = d }`
abbrev or_default : ℕ → ℤ → ℕ
or_default d (pos n) = if n == 0 then d else n
or_default d (negsuc n) = d

unfoldable pub new_budget : ℤ → ℤ → Budget
new_budget max_conns max_bytes = record {
  max_conns = or_default 16 max_conns;
  max_bytes = or_default 33_554_432 max_bytes;
  conns = 0;
  bytes = 0;
}

-- `if n < 0 { n = 0 }`
abbrev pub clamped : ℤ → ℕ
clamped (pos n) = n
clamped (negsuc n) = 0

unfoldable pub acquire : ℤ → Budget → Bool × Budget
acquire n b =
    if leb b.max_conns b.conns
    then (false, b)
    else if ltb b.max_bytes (b.bytes + clamped n)
    then (false, b)
    else (true, record b { conns = b.conns + 1; bytes = b.bytes + clamped n })

-- Subtraction stops at 0, as the tests for a negative count do.
unfoldable pub release : ℤ → Budget → Budget
release n b = record b { conns = b.conns - 1; bytes = b.bytes - clamped n }

pub data Step : Type 0 where
  acquires releases : ℤ → Step

unfoldable pub run_step : Step → Budget → Budget
run_step (acquires n) b = (acquire n b).1
run_step (releases n) b = release n b

unfoldable pub run_steps : List Step → Budget → Budget
run_steps [] b = b
run_steps (s ∷ steps) b = run_steps steps (run_step s b)

-- The limits are those of `b`, and they are kept.
pub record Within (b c : Budget) : Type 0 where
  pub same_conns : c.max_conns ≡ b.max_conns
  pub same_bytes : c.max_bytes ≡ b.max_bytes
  pub conns : c.conns ≤ b.max_conns
  pub bytes : c.bytes ≤ b.max_bytes

acquire-Within : (b c : Budget) (n : ℤ) → Within b c → Within b (acquire n c).1
unfolding acquire
acquire-Within b c n h = elim (Bool-cases (leb c.max_conns c.conns)) [
  | inl p ↦ rw p h
  | inr p ↦ elim (Bool-cases (ltb c.max_bytes (c.bytes + clamped n))) [
    | inl q ↦ rw (p, q) h
    | inr q ↦
        rw (p, q)
          (record {
            same_conns = h.same_conns;
            same_bytes = h.same_bytes;
            conns = ground (arith, p, h.same_conns);
            bytes = ground (arith, q, h.same_bytes);
          })
  ]
]

run_step-Within : (b c : Budget) (s : Step) → Within b c → Within b (run_step s c)
unfolding run_step release
run_step-Within b c (acquires n) h = acquire-Within b c n h
run_step-Within b c (releases n) h = record {
  same_conns = h.same_conns;
  same_bytes = h.same_bytes;
  conns = omega (arith, h.conns);
  bytes = omega (arith, h.bytes);
}

run_steps-Within : (b c : Budget) (steps : List Step) → Within b c → Within b (run_steps steps c)
unfolding run_steps
run_steps-Within b c [] h = h
run_steps-Within b c (s ∷ steps) h =
    run_steps-Within b (run_step s c) steps (run_step-Within b c s h)

-- From a new budget, whatever is acquired and released in whatever order, neither the connections
-- nor the bytes in flight exceed their limits, and the limits stay.
pub new_budget-Within :
    (max_conns max_bytes : ℤ) (steps : List Step)
    → Within (new_budget max_conns max_bytes) (run_steps steps (new_budget max_conns max_bytes))
unfolding new_budget
new_budget-Within max_conns max_bytes steps =
    run_steps-Within _ _ steps
      (record { same_conns = refl; same_bytes = refl; conns = omega arith; bytes = omega arith })

taken :
    (n : ℤ) (b c : Budget)
    → leb b.max_conns b.conns ≡ false
    → ltb b.max_bytes (b.bytes + clamped n) ≡ false
    → acquire n b ≡ (true, c)
    → (record b { conns = b.conns + 1; bytes = b.bytes + clamped n }) ≡ c
unfolding acquire
taken n b c p q h =
    let grown : Budget = record b { conns = b.conns + 1; bytes = b.bytes + clamped n } in
    let e : acquire n b ≡ (true, grown) = rw (p, q) refl in
    ap (λ (x : Bool × Budget). x.1) (sym e ∙ h)

given_back :
    (n : ℤ) (b : Budget)
    → release n (record b { conns = b.conns + 1; bytes = b.bytes + clamped n }) ≡ b
unfolding release
given_back n b =
    let e : b.conns + 1 - 1 ≡ b.conns = omega arith in
    let f : b.bytes + clamped n - clamped n ≡ b.bytes = omega arith in rw (e, f) refl

-- A release gives back exactly what an acquisition of the same size took.
pub release-acquire : (n : ℤ) (b c : Budget) → acquire n b ≡ (true, c) → release n c ≡ b
unfolding acquire release
release-acquire n b c h = elim (Bool-cases (leb b.max_conns b.conns)) [
  | inl p ↦ absurd (ground (arith, p, h))
  | inr p ↦ elim (Bool-cases (ltb b.max_bytes (b.bytes + clamped n))) [
    | inl q ↦ absurd (ground (arith, p, q, h))
    | inr q ↦ subst (λ (x : Budget). release n x ≡ b) (taken n b c p q h) (given_back n b)
  ]
]

-- A refused acquisition takes nothing.
pub acquire-refused : (n : ℤ) (b c : Budget) → acquire n b ≡ (false, c) → c ≡ b
unfolding acquire
acquire-refused n b c h = elim (Bool-cases (leb b.max_conns b.conns)) [
  | inl p ↦ sym (ap (λ (x : Bool × Budget). x.1) (rw p at h))
  | inr p ↦ elim (Bool-cases (ltb b.max_bytes (b.bytes + clamped n))) [
    | inl q ↦ sym (ap (λ (x : Bool × Budget). x.1) (rw (p, q) at h))
    | inr q ↦ absurd (ground (arith, p, q, h))
  ]
]
