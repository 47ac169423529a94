-- ===== src/Server/Webhook/Replayed.antt =====
-- A body that an hmac source has sent is accepted once: the handler and the replay guard together.
use general_webhook.Base.{
  ℕ, ◌<◌, ◌+◌, String, true, false, Option, some, List, All, ◌≡◌, sym, ◌∙◌, ap, subst, inl, inr,
  take, suc,
}
use general_webhook.Config.{Source, source_by_name}
use general_webhook.Store.Tx.{World, Tx, Result, Error, err}
use general_webhook.Store.Tx.Ends.{Ends}
use general_webhook.Store.Rows.{Db}
use general_webhook.Store.Claim.{unix_milli}
use general_webhook.Store.Accept.{NewEvent, is_empty, save_pending_event_guarded}
use general_webhook.Store.Calls.{Call, run_calls}
use general_webhook.Store.Accept.Lasting.{Before}
use general_webhook.Store.Accept.Duplicates.{save_pending_event_guarded-twice}
use general_webhook.Server.Handler.{State}
use general_webhook.Server.Headers.{Request, replay_ttl, max_body_bytes}
use general_webhook.Server.Webhook.{Setup, is_hmac, webhook, save_of, event_of}
use general_webhook.Server.Webhook.Outcome.{Refused, webhook-Outcome}
use general_webhook.Server.Webhook.Accepted.{Admitted, webhook-Admitted}

-- An action that is known to fail on every world with its database does not end.
never-Ends :
    (m : Tx Unit) (d e : Db) (a : Unit {0})
    → Ends m d a e
    → ((w : World) → w.db ≡ d → (x : Error) × ((m w).0 ≡ err x))
    → ⊥
never-Ends m d e a h fails =
    let f = fails h.start h.from in
    cc (f.1, ap (λ (x : Result (Unit {0}) × World). x.0) h.leaves.runs)

some_same : {A : Type 0} (a b : A) (o : Option A) → o ≡ some a → o ≡ some b → a ≡ b
some_same a b o h k = cc (h, k)

module _ {F Ip : Type 0} (setup : Setup F Ip) (r r' : Request) (s s' : State F)
    (cs : List Call) where
  guarded :
      (src : Source) (q : Request) (ev : NewEvent) (d e : Db)
      → is_hmac setup src ≡ true
      → Ends (save_of setup src q ev) d tt e
      → Ends (save_pending_event_guarded ev (unix_milli (q.now + replay_ttl))) d tt e
  guarded src q ev d e hmac h = rw hmac at h

  module _ (first : Admitted setup r s (webhook setup r s).1)
      (again : Admitted setup r' s' (webhook setup r' s').1) (same_source : r'.source ≡ r.source)
      (same_body : r'.body ≡ r.body) (early : unix_milli r'.now < unix_milli (r.now + replay_ttl))
      (hashed : (b : List ℕ) → is_empty (setup.lib.sha256_hex b) ≡ false)
      (before : All (Before (unix_milli (r.now + replay_ttl))) cs)
      (next : s'.world.db ≡ (run_calls cs (webhook setup r s).1.world).db)
      (hmac : is_hmac setup first.source ≡ true) where
    one_source : again.source ≡ first.source
    one_source =
        some_same _ _ _ again.is_known
          (ap (source_by_name setup.config) same_source ∙ first.is_known)

    one_body : again.body ≡ first.body
    one_body =
        let (all, read, cut) = first.is_read in
        let (all', read', cut') = again.is_read in
        cut'
        ∙ ap (take (suc max_body_bytes)) (some_same all' all _ read' (same_body ∙ read))
        ∙ sym cut

    not_twice : ⊥
    not_twice =
        let e = event_of setup first.source r first.id first.body first.actions_json in
        let f = event_of setup again.source r' again.id again.body again.actions_json in
        let saved = guarded first.source r e _ _ hmac first.is_saved in
        let hmac' : is_hmac setup again.source ≡ true = rw one_source hmac in
        let saved_again = guarded again.source r' f _ _ hmac' again.is_saved in
        never-Ends _ _ _ tt saved_again (λ w at.
          (save_pending_event_guarded-twice e f _ _ _ cs _ w (hashed first.body) same_source
            (ap setup.lib.sha256_hex one_body) early before saved (at ∙ next)).0)

  -- After a request to an hmac source has been accepted, a request with the same body to that source
  -- is refused and leaves the database and the queue as they are, if it is handled before the guard
  -- expires ten minutes later: whatever calls of the store were made in between, with any statements
  -- failing, whose saves and purges are also before the expiry, whatever its headers and whatever
  -- statements of it fail, if the hash of a body is never the empty text.
  pub webhook-once :
      (id : String) (src : Source)
      → (webhook setup r s).0 ≡ inr id
      → source_by_name setup.config r.source ≡ some src
      → is_hmac setup src ≡ true
      → r'.source ≡ r.source
      → r'.body ≡ r.body
      → unix_milli r'.now < unix_milli (r.now + replay_ttl)
      → ((b : List ℕ) → is_empty (setup.lib.sha256_hex b) ≡ false)
      → All (Before (unix_milli (r.now + replay_ttl))) cs
      → s'.world.db ≡ (run_calls cs (webhook setup r s).1.world).db
      → Refused setup r' s' (webhook setup r' s')
  webhook-once id src accepted known hmac source body early hashed before next =
      elim (webhook-Outcome setup r' s') [
        | inl refused ↦ refused
        | inr again ↦
            let first = webhook-Admitted setup r s id accepted in
            let hmac' : is_hmac setup first.source ≡ true =
              subst (λ (x : Source). is_hmac setup x ≡ true) (some_same _ _ _ known first.is_known)
                hmac in
            absurd (
              not_twice first (webhook-Admitted setup r' s' again.event.id again.is_accepted) source
                body early hashed before next hmac')
      ]
