-- ===== src/Server/Webhook/Outcome.antt =====
-- What a webhook request leaves behind: an event and a wake of the queue, or nothing.
use general_webhook.Base.{
  String, Bool, true, false, ℤ, ◌≡◌, refl, sym, ◌∙◌, ap, ◌⊎◌, inl, inr, if◌then◌else◌, Bool-cases,
}
use general_webhook.Config.{Source}
use general_webhook.Store.Tx.{
  World, Tx, Result, Error, ok, err, transact, duplicate_body, duplicate_event,
}
use general_webhook.Store.Tx.Ends.{Ends}
use general_webhook.Store.Tx.Inversion.{transact_err}
use general_webhook.Store.Accept.{
  NewEvent, save_pending_event_at, save_pending_event, save_pending_event_guarded,
}
use general_webhook.Queue.Lifecycle.{wake}
use general_webhook.Server.Handler.{
  Handler, State, Refusal, answer, refuse, continue, ◌>>=◌, stored, wake_queue, budgeted,
}
use general_webhook.Server.Budget.{acquire, release}
use general_webhook.Server.Handler.Rules.{
  Same, Same-refl, Same-trans, Quiet, Quiet-found, Quiet-demand, Quiet-limited, Balanced,
  Balanced-answer, Balanced-refuse, quiet_rules, balance_rules,
}
use general_webhook.Server.Headers.{Request}
use general_webhook.Server.Webhook.{
  Setup, is_hmac, read_body, check_replay, admit, accept, webhook, save_of, save_event, saved,
}

module _ {F Ip : Type 0} (setup : Setup F Ip) (r : Request) where
  -- The request is refused, and the store and the queue are as they were.
  pub record Refused (s : State F) (out : (Refusal ⊎ String) × State F) : Type 0 where
    pub refusal : Refusal
    pub is_refused : out.0 ≡ inl refusal
    pub same_db : out.1.world.db ≡ s.world.db
    pub same_life : out.1.life ≡ s.life

  -- The answer is the id of an event, whose save has succeeded, and the queue is woken.
  pub record Accepted (s : State F) (out : (Refusal ⊎ String) × State F) : Type 0 where
    pub source : Source
    pub event : NewEvent
    pub is_accepted : out.0 ≡ inr event.id
    pub is_saved : Ends (save_of setup source r event) s.world.db tt out.1.world.db
    pub is_woken : out.1.life ≡ (wake s.life).1

  abbrev pub Outcome : State F → (Refusal ⊎ String) × State F → Type 0
  Outcome s out = Refused s out ⊎ Accepted s out

  one_of-err :
      (b : Bool) (m n : Tx Unit) (w : World) (e : Error)
      → ((if b then transact m else transact n) w).0 ≡ err e
      → ((if b then transact m else transact n) w).1.db ≡ w.db
  one_of-err true m n w e h = transact_err m w e h
  one_of-err false m n w e h = transact_err n w e h

  save_of-err :
      (src : Source) (ev : NewEvent) (w : World) (e : Error)
      → (save_of setup src r ev w).0 ≡ err e
      → (save_of setup src r ev w).1.db ≡ w.db
  unfolding save_pending_event_guarded save_pending_event save_pending_event_at
  save_of-err src ev w e h = one_of-err (is_hmac setup src) _ _ w e h

  read_body-Quiet : Quiet (read_body setup r)
  unfolding read_body
  read_body-Quiet = search quiet_rules depth 12

  check_replay-Quiet : (src : Source) → Quiet (check_replay setup src r)
  unfolding check_replay
  check_replay-Quiet src = search quiet_rules depth 12

  pub admit-Quiet : (src : Source) → Quiet (admit setup src r)
  unfolding admit
  admit-Quiet src = search (quiet_rules, read_body-Quiet, check_replay-Quiet) depth 14

  read_body-Balanced : Balanced (read_body setup r)
  unfolding read_body
  read_body-Balanced = search balance_rules depth 12

  check_replay-Balanced : (src : Source) → Balanced (check_replay setup src r)
  unfolding check_replay
  check_replay-Balanced src = search balance_rules depth 12

  admit-Balanced : (src : Source) → Balanced (admit setup src r)
  unfolding admit
  admit-Balanced src = search (balance_rules, read_body-Balanced, check_replay-Balanced) depth 14

  saved-Balanced : (o : Result Unit) → Balanced (saved {F = F} o)
  saved-Balanced (ok a) = Balanced-answer tt
  saved-Balanced (err duplicate_body) = Balanced-refuse _ _
  saved-Balanced (err duplicate_event) = Balanced-refuse _ _
  saved-Balanced (err _) = Balanced-refuse _ _

  accept-Balanced : (src : Source) → Balanced (accept setup src r)
  unfolding accept save_event
  accept-Balanced src = search (balance_rules, admit-Balanced, saved-Balanced) depth 14

  -- Whatever is answered, what the request takes of the budget in flight is given back.
  pub webhook-Balanced : (s : State F) → (webhook setup r s).1.budget ≡ s.budget
  unfolding webhook
  webhook-Balanced s =
      let b : Balanced (webhook setup r) = search (balance_rules, accept-Balanced) depth 14 in
      b.at s

  saved_refuses :
      (e : Error) (t : State F) → (refusal : Refusal) × (saved {F = F} (err e) t ≡ (inl refusal, t))
  unfolding refuse
  saved_refuses duplicate_body t = (_, refl)
  saved_refuses duplicate_event t = (_, refl)
  saved_refuses _ t = (_, refl)

  failed_db :
      (s t : State F) (src : Source) (ev : NewEvent) (x : Error) (w : World)
      → Same s t
      → save_of setup src r ev t.world ≡ (err x, w)
      → w.db ≡ s.world.db
  failed_db s t src ev x w h e =
      let kept = save_of-err src ev t.world x (ap (λ (p : Result (Unit {0}) × World). p.0) e) in
      sym (ap (λ (p : Result (Unit {0}) × World). p.1.db) e)
      ∙ kept
      ∙ ap (λ (v : World). v.db) h.world

  -- The steps after the event is made, in a state whose store and queue are those of `s`.
  after_save :
      (s t : State F) (src : Source) (ev : NewEvent) (o : Result Unit) (w : World)
      → Same s t
      → save_of setup src r ev t.world ≡ (o, w)
      → Outcome s
          (continue (saved o (record t { world = w })) (λ _. wake_queue >>= λ _. answer ev.id))
  unfolding wake_queue answer ◌>>=◌
  after_save s t src ev (ok a) w h e = inr (record {
    source = src;
    event = ev;
    is_accepted = refl;
    is_saved = record {
      start = t.world;
      finish = w;
      from = ap (λ (x : World). x.db) h.world;
      to = refl;
      leaves = record { runs = e };
    };
    is_woken = ap (λ l. (wake l).1) h.life;
  })
  after_save s t src ev (err x) w h e =
      let (refusal, said) = saved_refuses x (record t { world = w }) in
      inl (record {
        refusal = refusal;
        is_refused = rw said refl;
        same_db = rw said (failed_db s t src ev x w h e);
        same_life = rw said h.life;
      })

  -- Steps that end here, or leave the store and the queue to the rest.
  bind_Outcome :
      {A : Type 0} (s t u : State F) (o : Refusal ⊎ A) (k : A → Handler F String)
      → Same s u
      → ((a : A) → Outcome s (k a u))
      → Outcome s (continue (o, u) k)
  bind_Outcome s t u (inl refusal) k h rest = inl (record {
    refusal = refusal;
    is_refused = refl;
    same_db = ap (λ (v : World). v.db) h.world;
    same_life = h.life;
  })
  bind_Outcome s t u (inr a) k h rest = rest a

  quiet_Outcome :
      {A : Type 0} (s t : State F) (m : Handler F A) (k : A → Handler F String)
      → Same s t
      → Quiet m
      → ((a : A) (u : State F) → Same s u → Outcome s (k a u))
      → Outcome s ((m >>= k) t)
  unfolding ◌>>=◌
  quiet_Outcome s t m k h q rest =
      let same = Same-trans s t (m t).1 h (q.at t) in
      bind_Outcome s t (m t).1 (m t).0 k same (λ a. rest a (m t).1 same)

  accept-Outcome : (s t : State F) (src : Source) → Same s t → Outcome s (accept setup src r t)
  unfolding accept save_event stored ◌>>=◌
  accept-Outcome s t src h =
      quiet_Outcome s t (admit setup src r) _ h (admit-Quiet src)
        (λ ev u same. after_save s u src ev _ _ same refl)

  with_budget :
      (s : State F) (out : (Refusal ⊎ String) × State F) (n : ℤ)
      → Outcome s out
      → Outcome s (out.0, record out.1 { budget = release n out.1.budget })
  with_budget s out n (inl h) = inl (record {
    refusal = h.refusal;
    is_refused = h.is_refused;
    same_db = h.same_db;
    same_life = h.same_life;
  })
  with_budget s out n (inr h) = inr (record {
    source = h.source;
    event = h.event;
    is_accepted = h.is_accepted;
    is_saved = h.is_saved;
    is_woken = h.is_woken;
  })

  budgeted-Outcome :
      (s t : State F) (n : ℤ) (rest : Handler F String)
      → Same s t
      → ((u : State F) → Same s u → Outcome s (rest u))
      → Outcome s (budgeted n rest t)
  unfolding budgeted
  budgeted-Outcome s t n rest h each = elim (Bool-cases (acquire n t.budget).0) [
    | inl e ↦
        let u : State F = record t { budget = (acquire n t.budget).1 } in
        rw e (with_budget s (rest u) n (each u (record { world = h.world; life = h.life })))
    | inr e ↦ rw e (
        inl (record {
          refusal = _;
          is_refused = refl;
          same_db = ap (λ (v : World). v.db) h.world;
          same_life = h.life;
        }))
  ]

  -- A webhook request, whatever statements of the store fail, either is accepted, and then its event is
  -- saved in the transaction that replies for it, the answer is the id of that event and the queue is
  -- woken; or it is refused, and the database and the queue are as they were.
  pub webhook-Outcome : (s : State F) → Outcome s (webhook setup r s)
  unfolding webhook
  webhook-Outcome s = quiet_Outcome s s _ _ (Same-refl s) (Quiet-found _ _ _) (λ src t h.
      quiet_Outcome s t _ _ h (Quiet-demand _ _ _) (λ _ u i.
        quiet_Outcome s u _ _ i (Quiet-limited _ _ _ _) (λ _ v j.
          quiet_Outcome s v _ _ j (Quiet-demand _ _ _)
            (λ _ w k. budgeted-Outcome s w _ _ k (λ x l. accept-Outcome s x src l)))))
