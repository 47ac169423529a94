-- ===== src/Server/Handler/Answers.antt =====
-- What a handler has passed when it answers.
use general_webhook.Base.{
  ℕ, String, Bool, true, false, Option, none, some, ◌≡◌, refl, ◌⊎◌, inl, inr,
}
use general_webhook.Server.Handler.{
  Handler, State, Refusal, answer, refuse, demand, found, continue, ◌>>=◌,
}

module _ {F : Type 0} where
  -- The handler is not ended by a refusal.
  pub record Answers {A : Type 0} (m : Handler F A) (s : State F) (a : A) (t : State F)
      : Type 0 where
    pub runs : m s ≡ (inr a, t)

  pub Answers-demand :
      (b : Bool) (code : ℕ) (text : String) (s : State F) (a : Unit {0}) (t : State F)
      → Answers (demand b code text) s a t
      → b ≡ true
  unfolding demand refuse
  Answers-demand true code text s a t h = refl
  Answers-demand false code text s a t h = absurd (cc (h.runs))

  module _ {A : Type 0} where
    pub Answers-of_run :
        (m : Handler F A) (s : State F) (a : A) → (m s).0 ≡ inr a → Answers m s a (m s).1
    Answers-of_run m s a h = record { runs = λ i. (h i, (m s).1) }

    pub Answers-answer : (a b : A) (s t : State F) → Answers (answer a) s b t → b ≡ a
    unfolding answer
    Answers-answer a b s t h = cc (h.runs)

    pub Answers-found :
        (o : Option A) (code : ℕ) (text : String) (s : State F) (a : A) (t : State F)
        → Answers (found o code text) s a t
        → o ≡ some a
    unfolding found answer refuse
    Answers-found none code text s a t h = absurd (cc (h.runs))
    Answers-found (some b) code text s a t h = cc (h.runs)

  module _ {A B : Type 0} where
    pub record Parts (m : Handler F A) (k : A → Handler F B) (s : State F) (b : B) (u : State F)
        : Type 0 where
      pub value : A
      pub between : State F
      pub before : Answers m s value between
      pub after : Answers (k value) between b u

    continue-Parts :
        (m : Handler F A) (k : A → Handler F B) (s : State F) (b : B) (u : State F)
        (o : Refusal ⊎ A) (t : State F)
        → m s ≡ (o, t)
        → continue (o, t) k ≡ (inr b, u)
        → Parts m k s b u
    continue-Parts m k s b u (inl r) t e h = absurd (cc h)
    continue-Parts m k s b u (inr a) t e h = record {
      value = a;
      between = t;
      before = record { runs = e };
      after = record { runs = h };
    }

    pub Answers-bind :
        (m : Handler F A) (k : A → Handler F B) (s : State F) (b : B) (u : State F)
        → Answers (m >>= k) s b u
        → Parts m k s b u
    unfolding ◌>>=◌
    Answers-bind m k s b u h = continue-Parts m k s b u (m s).0 (m s).1 refl h.runs

  module _ {B : Type 0} where
    -- The test at the head of a handler, and the rest.
    pub Answers-demand_bind :
        (c : Bool) (code : ℕ) (text : String) (k : Unit {0} → Handler F B) (s : State F) (b : B)
        (u : State F)
        → Answers (demand c code text >>= k) s b u
        → (c ≡ true) × (t : State F) × Answers (k tt) t b u
    Answers-demand_bind c code text k s b u h =
        let p = Answers-bind (demand c code text) k s b u h in
        (Answers-demand c code text s p.value p.between p.before, p.between, p.after)
