-- ===== src/Server/Admin/Guarded.antt =====
-- No operation of the administrator runs without the token.
use general_webhook.Base.{false, ◌≡◌, refl, ◌⊎◌, inl, inr, str_eq, eq_iff, Bool-cases}
use general_webhook.Server.Handler.{
  Handler, State, Refusal, demand, refuse, continue, ◌>>=◌, ◌>>◌, limited, admin_ip,
}
use general_webhook.Server.Handler.Rules.{Same, Same-refl, Quiet, Quiet-limited}
use general_webhook.Server.Headers.{Request}
use general_webhook.Server.Webhook.{Setup, ip_of}
use general_webhook.Server.Admin.{Texts, shown_token, require_admin, admin_route}

module _ {F Ip A : Type 0} (setup : Setup F Ip) (texts : Texts) (next : Request → Handler F A)
    (r : Request) where
  refused_after :
      (s t : State F) (o : Refusal ⊎ Unit)
      → Same s t
      → let out = continue (o, t) (λ _. demand false 401 "unauthorized" >> next r) in
        Same s out.1 × ((x : Refusal) × (out.0 ≡ inl x))
  unfolding demand refuse ◌>>=◌
  refused_after s t (inl x) h = (h, (x, refl))
  refused_after s t (inr _) h = (h, (_, refl))

  require_admin-guarded :
      (s : State F)
      → (shown_token setup texts r ≡ setup.config.admin.token)
        ⊎ (Same s (require_admin setup texts next r s).1
            × ((x : Refusal) × ((require_admin setup texts next r s).0 ≡ inl x)))
  unfolding require_admin ◌>>=◌
  require_admin-guarded s =
      elim (Bool-cases (str_eq (shown_token setup texts r) setup.config.admin.token)) [
        | inl e ↦ inl ((eq_iff _ _).0 e)
        | inr e ↦
            let step : Handler F Unit = limited setup.num admin_ip (ip_of setup r) r.now in
            let quiet : Quiet step = Quiet-limited setup.num admin_ip (ip_of setup r) r.now in
            inr (rw e (refused_after s (step s).1 (step s).0 (quiet.at s)))
      ]

  -- A request to a route of the administrator shows the configured token, which is not empty, or it is
  -- refused and leaves the store and the queue as they were.
  pub admin_route-guarded :
      (s : State F)
      → ((str_eq setup.config.admin.token "" ≡ false)
          × (shown_token setup texts r ≡ setup.config.admin.token))
        ⊎ (Same s (admin_route setup texts next r s).1
            × ((x : Refusal) × ((admin_route setup texts next r s).0 ≡ inl x)))
  unfolding admin_route refuse
  admin_route-guarded s = elim (Bool-cases (str_eq setup.config.admin.token "")) [
    | inl e ↦ inr (rw e (Same-refl s, (_, refl)))
    | inr e ↦ elim (require_admin-guarded s) [
      | inl shown ↦ inl (e, shown)
      | inr refused ↦ inr (rw e refused)
    ]
  ]
