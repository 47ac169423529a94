-- ===== src/Server/Webhook/Accepted.antt =====
-- What an accepted webhook request has shown.
use general_webhook.Base.{
  ℕ, ◌≤◌, ℤ, String, true, false, not, Option, none, some, List, ◌≡◌, refl, sym, ◌∙◌, ap, subst,
  arith, ◌⊎◌, inl, inr, Bool-cases, str_eq, ltb, length, take, suc,
}
use general_webhook.Config.{Source, source_by_name}
use general_webhook.Auth.{AuthError, verify}
use general_webhook.Store.Accept.{NewEvent}
use general_webhook.Store.Tx.{World, Result, ok, err, duplicate_body, duplicate_event}
use general_webhook.Store.Tx.Ends.{Ends, Ends-of_run}
use general_webhook.Server.Handler.Rules.{Answers-Same, Quiet-found, Quiet-demand, Quiet-limited}
use general_webhook.Server.Webhook.Outcome.{admit-Quiet}
use general_webhook.Server.Budget.{acquire}
use general_webhook.Server.Handler.{
  Handler, State, Refusal, answer, stored, wake_queue, ◌>>=◌, budgeted, refuse,
}
use general_webhook.Server.Handler.Answers.{
  Answers, Answers-of_run, Answers-answer, Answers-demand, Answers-found, Answers-bind,
  Answers-demand_bind,
}
use general_webhook.Server.Headers.{
  Request, max_body_bytes, replay_skew, valid_delivery_id, delivery_of, valid_replay_headers,
}
use general_webhook.Server.Webhook.{
  Setup, passes, is_hmac, read_body, check_replay, admit, accept, webhook, saved, save_event,
  save_of, event_of,
}

le_of_not-ltb : (a b : ℕ) → not (ltb a b) ≡ true → b ≤ a
le_of_not-ltb a b h = ground (arith, h)

module _ {F Ip : Type 0} (setup : Setup F Ip) (r : Request) where
  -- The source asks for no signature, or the request names its delivery and a time that is not stale.
  abbrev pub NotReplayed : Source → Type 0
  NotReplayed src =
      (is_hmac setup src ≡ false)
      ⊎ ((str_eq (delivery_of setup.lib r) "" ≡ false)
          × (valid_delivery_id (delivery_of setup.lib r) ≡ true)
          × (valid_replay_headers setup.lib r r.now replay_skew ≡ true))

  -- What the handler has found when it accepts, from the state `s` to `t`, and the event it has saved.
  pub record Admitted (s t : State F) : Type 0 where
    pub source : Source
    pub body : List ℕ
    pub id : String
    pub actions_json : String
    pub is_known : source_by_name setup.config r.source ≡ some source
    pub is_small : length body ≤ max_body_bytes
    pub is_authentic : verify setup.lib.auth r.headers source.auth (setup.lib.text_of body) ≡ none
    pub is_json : setup.lib.valid_json body ≡ true
    pub is_fresh : NotReplayed source
    pub is_read : (all : List ℕ) × (r.body ≡ some all) × (body ≡ take (suc max_body_bytes) all)
    pub is_saved :
        Ends
          (save_of setup source r (event_of setup source r id body actions_json))
          s.world.db
          tt
          t.world.db

  passes-none : (o : Option AuthError) → passes o ≡ true → o ≡ none
  passes-none none h = refl
  passes-none (some x) h = absurd (cc h)

  read_body_small :
      (s : State F) (body : List ℕ) (t : State F)
      → Answers (read_body setup r) s body t
      → length body ≤ max_body_bytes
  unfolding read_body
  read_body_small s body t h =
      let p = Answers-bind _ _ s body t h in
      let (small, u, rest) = Answers-demand_bind _ _ _ _ _ body t p.after in
      rw (Answers-answer _ body u t rest) (le_of_not-ltb _ _ small)

  check_replay_fresh :
      (src : Source) (s : State F) (a : Unit {0}) (t : State F)
      → Answers (check_replay setup src r) s a t
      → NotReplayed src
  unfolding check_replay
  check_replay_fresh src s a t h =
      let (valid, u, rest) = Answers-demand_bind _ _ _ _ s a t h in
      let (given, v, last) = Answers-demand_bind _ _ _ _ u a t rest in
      let fresh = Answers-demand _ _ _ v a t last in
      elim (Bool-cases (is_hmac setup src)) [
        | inl e ↦ inr (
          ground (arith, e, given),
          ground (arith, e, given, valid),
          ground (arith, e, given, fresh),
        )
        | inr e ↦ inl e
      ]

  read_body_read :
      (s : State F) (body : List ℕ) (t : State F)
      → Answers (read_body setup r) s body t
      → (all : List ℕ) × (r.body ≡ some all) × (body ≡ take (suc max_body_bytes) all)
  unfolding read_body
  read_body_read s body t h =
      let p = Answers-bind _ _ s body t h in
      let (_, u, rest) = Answers-demand_bind _ _ _ _ _ body t p.after in
      (p.value, Answers-found _ _ _ s p.value p.between p.before, Answers-answer _ body u t rest)

  saved_ok :
      (o : Result Unit) (s : State F) (a : Unit {0}) (t : State F)
      → Answers (saved o) s a t
      → (o ≡ ok tt) × (t ≡ s)
  unfolding answer refuse
  saved_ok (ok x) s a t h = (refl, cc (h.runs))
  saved_ok (err duplicate_body) s a t h = absurd (cc (h.runs))
  saved_ok (err duplicate_event) s a t h = absurd (cc (h.runs))
  saved_ok (err _) s a t h = absurd (cc (h.runs))

  save_event-Ends :
      (src : Source) (ev : NewEvent) (s : State F) (a : Unit {0}) (t : State F)
      → Answers (save_event setup src r ev) s a t
      → Ends (save_of setup src r ev) s.world.db tt t.world.db
  unfolding save_event stored ◌>>=◌
  save_event-Ends src ev s a t h =
      let run = save_of setup src r ev s.world in
      let (e, f) = saved_ok run.0 (record s { world = run.1 }) a t (record { runs = h.runs }) in
      subst (λ (x : State F). Ends (save_of setup src r ev) s.world.db tt x.world.db) (sym f)
        (Ends-of_run (save_of setup src r ev) s.world tt e)

  saved_as :
      (src : Source) (ev ev' : NewEvent) (s t a b : State F)
      → Ends (save_of setup src r ev) a.world.db tt b.world.db
      → ev ≡ ev'
      → a.world ≡ s.world
      → b.world ≡ t.world
      → Ends (save_of setup src r ev') s.world.db tt t.world.db
  saved_as src ev ev' s t a b h same from to =
      subst (λ (x : NewEvent). Ends (save_of setup src r x) s.world.db tt t.world.db) same
        (record {
          start = h.start;
          finish = h.finish;
          from = h.from ∙ ap (λ (w : World). w.db) from;
          to = h.to ∙ ap (λ (w : World). w.db) to;
          leaves = h.leaves;
        })

  woken :
      (ev : NewEvent) (s : State F) (id : String) (t : State F)
      → Answers (wake_queue >>= λ _. answer ev.id) s id t
      → s.world ≡ t.world
  unfolding wake_queue answer ◌>>=◌
  woken ev s id t h = ap (λ (x : (Refusal ⊎ String) × State F). x.1.world) h.runs

  -- The parts of `accept` that answer.
  module _ (src : Source) (is_known : source_by_name setup.config r.source ≡ some src)
      (s t : State F) where
    accept-Admitted :
        (u : State F) (id : String) (v : State F)
        → u.world ≡ s.world
        → Answers (accept setup src r) u id v
        → v.world ≡ t.world
        → Admitted s t
    unfolding accept admit
    accept-Admitted u id v from h to =
        let p = Answers-bind _ _ u id v h in
        let q = Answers-bind _ _ _ id v p.after in
        let read = Answers-bind _ _ u p.value p.between p.before in
        let named = Answers-bind _ _ _ p.value p.between read.after in
        let (auth, a, rest) = Answers-demand_bind _ _ _ _ _ p.value p.between named.after in
        let first = Answers-bind _ _ a p.value p.between rest in
        let second = Answers-bind _ _ _ p.value p.between first.after in
        let (json, b, last) = Answers-demand_bind _ _ _ _ _ p.value p.between second.after in
        let replay = Answers-bind _ _ b p.value p.between last in
        let snapshot = Answers-bind _ _ _ p.value p.between replay.after in
        record {
          source = src;
          body = read.value;
          id = named.value;
          actions_json = snapshot.value;
          is_known = is_known;
          is_small = read_body_small u read.value read.between read.before;
          is_authentic = passes-none _ auth;
          is_json = json;
          is_fresh = check_replay_fresh src b replay.value replay.between replay.before;
          is_read = read_body_read u read.value read.between read.before;
          is_saved =
              saved_as src p.value _ s t p.between q.between
                (save_event-Ends src p.value p.between q.value q.between q.before)
                (Answers-answer _ p.value snapshot.between p.between snapshot.after)
                ((Answers-Same (admit-Quiet setup r src) p.before).world ∙ from)
                (woken p.value q.between id v q.after ∙ to);
        }

  -- A granted budget, with the state in which the rest runs.
  budgeted-Answers :
      (n : ℤ) (rest : Handler F String) (s : State F) (id : String) (t : State F)
      → Answers (budgeted n rest) s id t
      → (u : State F) × (v : State F) × Answers rest u id v
        × (u.world ≡ s.world)
        × (v.world ≡ t.world)
  unfolding budgeted refuse
  budgeted-Answers n rest s id t h = elim (Bool-cases (acquire n s.budget).0) [
    | inl e ↦
        let u : State F = record s { budget = (acquire n s.budget).1 } in
        let run = rw e at h.runs in
        (
          u,
          (rest u).1,
          Answers-of_run rest u id (ap (λ (x : (Refusal ⊎ String) × State F). x.0) run),
          refl,
          ap (λ (x : (Refusal ⊎ String) × State F). x.1.world) run,
        )
    | inr e ↦ absurd (cc (rw e at h.runs))
  ]

  -- A request is only accepted for a source that is configured, with a body of at most 1 MiB that is
  -- valid JSON and passes the source's authentication; for an hmac source the request also names a
  -- delivery id of the allowed form and a time that is not stale. What is then saved is the event of
  -- this request, with that body, under a replay guard if the source is an hmac source.
  pub webhook-Admitted :
      (s : State F) (id : String)
      → (webhook setup r s).0 ≡ inr id
      → Admitted s (webhook setup r s).1
  unfolding webhook
  webhook-Admitted s id h =
      let end = (webhook setup r s).1 in
      let known = Answers-bind _ _ s id end (Answers-of_run _ s id h) in
      let typed = Answers-bind _ _ known.between id end known.after in
      let passed = Answers-bind _ _ typed.between id end typed.after in
      let sized = Answers-bind _ _ passed.between id end passed.after in
      let (u, v, rest, from, to) = budgeted-Answers _ _ sized.between id end sized.after in
      let same =
        (Answers-Same (Quiet-demand _ _ _) sized.before).world
        ∙ (Answers-Same (Quiet-limited _ _ _ _) passed.before).world
        ∙ (Answers-Same (Quiet-demand _ _ _) typed.before).world
        ∙ (Answers-Same (Quiet-found _ _ _) known.before).world in
      accept-Admitted known.value (Answers-found _ _ _ s _ _ known.before) s end u id v
        (from ∙ same) rest to
