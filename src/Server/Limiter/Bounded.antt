-- ===== src/Server/Limiter/Bounded.antt =====
-- The limiter keeps at most `max_keys` buckets.
use general_webhook.Base.{
  ℕ, ◌+◌, ◌≤◌, ◌<◌, ℤ, String, Bool, true, false, List, [], ◌∷◌, ◌++◌, ◌≡◌, refl, ◌∙◌, ap, subst,
  arith, ltb, leb, str_eq, eq_iff, eq_refl, Bool-cases, Option-cases, inl, inr, length, Memᴰ,
  delete_where, update_where, first_where, first_where-holds, All, All-delete_where, All-append,
  All-update_where, suc,
}
use general_webhook.Server.Limiter.{
  bucket_idle_ttl, new_rate_limiter, Arithmetic, Bucket, RateLimiter, purge, oldest_from, evict_one,
  has_key, topped_up, take_token, with_room, allow,
}

module _ {A : Type 0} where
  length-delete_where : (p : A → Bool) (xs : List A) → length (delete_where p xs) ≤ length xs
  unfolding delete_where
  length-delete_where p [] = omega arith
  length-delete_where p (x ∷ xs) = ground (arith, length-delete_where p xs)

  length-update_where :
      (p : A → Bool) (f : A → A) (xs : List A) → length (update_where p f xs) ≡ length xs
  unfolding update_where
  length-update_where p f [] = refl
  length-update_where p f (x ∷ xs) = ap suc (length-update_where p f xs)

  skip : {a x y : A} {xs : List A} → Memᴰ a (x ∷ xs) → Memᴰ a (x ∷ y ∷ xs)
  skip (Memᴰ.head e) = Memᴰ.head e
  skip (Memᴰ.tail m) = Memᴰ.tail (Memᴰ.tail m)

  length-delete_Memᴰ :
      (p : A → Bool) (a : A) (xs : List A)
      → Memᴰ a xs
      → p a ≡ true
      → length (delete_where p xs) < length xs
  unfolding delete_where
  length-delete_Memᴰ p a [] m h = elim m [ ]
  length-delete_Memᴰ p a (x ∷ xs) (Memᴰ.head e) h =
      let t : p x ≡ true = subst (λ y. p y ≡ true) e h in
      rw t (ground (arith, length-delete_where p xs))
  length-delete_Memᴰ p a (x ∷ xs) (Memᴰ.tail m) h = ground (arith, length-delete_Memᴰ p a xs m h)

  length-snoc : (xs : List A) (y : A) → length (xs ++ y ∷ []) ≡ suc (length xs)
  length-snoc [] y = refl
  length-snoc (x ∷ xs) y = ap suc (length-snoc xs y)

  snoc-few : (xs : List A) (y : A) (n : ℕ) → length xs < n → length (xs ++ y ∷ []) ≤ n
  snoc-few xs y n h = rw (length-snoc xs y) (omega (arith, h))

module _ {F : Type 0} where
  purge-few : (now : ℕ) (bs : List (Bucket F)) (n : ℕ) → length bs ≤ n → length (purge now bs) ≤ n
  unfolding purge
  purge-few now bs n h =
      omega
        (arith, h, length-delete_where (λ (b : Bucket F). ltb (b.last + bucket_idle_ttl) now) bs)

  -- No bucket has the empty key, which evictOne would not delete.
  abbrev pub Named : Bucket F → Type 0
  Named b = str_eq b.key "" ≡ false

  oldest_from-Memᴰ : (b : Bucket F) (bs : List (Bucket F)) → Memᴰ (oldest_from b bs) (b ∷ bs)
  unfolding oldest_from
  oldest_from-Memᴰ b [] = Memᴰ.head refl
  oldest_from-Memᴰ b (c ∷ bs) = elim (Bool-cases (ltb c.last b.last)) [
    | inl e ↦ rw (e, oldest_from) (Memᴰ.tail (oldest_from-Memᴰ c bs))
    | inr e ↦ rw (e, oldest_from) (skip (oldest_from-Memᴰ b bs))
  ]

  oldest_from-Named :
      (b : Bucket F) (bs : List (Bucket F)) → Named b → All Named bs → Named (oldest_from b bs)
  unfolding oldest_from
  oldest_from-Named b [] h a = h
  oldest_from-Named b (c ∷ bs) h a = elim (Bool-cases (ltb c.last b.last)) [
    | inl e ↦ rw (e, oldest_from) (oldest_from-Named c bs a.0 a.1)
    | inr e ↦ rw (e, oldest_from) (oldest_from-Named b bs h a.1)
  ]

  evict_one-Named : (bs : List (Bucket F)) → All Named bs → All Named (evict_one bs)
  unfolding evict_one
  evict_one-Named [] a = tt
  evict_one-Named (b ∷ bs) a =
      rw (oldest_from-Named b bs a.0 a.1) (All-delete_where Named _ (b ∷ bs) a)

  evict_one-fewer :
      (bs : List (Bucket F)) → All Named bs → 0 < length bs → length (evict_one bs) < length bs
  unfolding evict_one
  evict_one-fewer [] a h = absurd (omega (arith, h))
  evict_one-fewer (b ∷ bs) a h = rw (oldest_from-Named b bs a.0 a.1) (
      length-delete_Memᴰ (λ c. str_eq c.key (oldest_from b bs).key) _ (b ∷ bs)
        (oldest_from-Memᴰ b bs) (eq_refl _))

  -- The buckets of a limiter are Named and not too many.
  pub record Bounded (n : ℕ) (r : RateLimiter F) : Type 0 where
    pub max_keys : r.max_keys ≡ n
    pub names : All Named r.buckets
    pub few : length r.buckets ≤ n

  module _ (num : Arithmetic F) where
    take_token-key : (b : Bucket F) → (take_token num b).1.key ≡ b.key
    unfolding take_token
    take_token-key b = ground arith

    topped_up-key :
        (r : RateLimiter F) (now : ℕ) (b : Bucket F) → (topped_up num r now b).key ≡ b.key
    unfolding topped_up
    topped_up-key r now b = ground arith

    with_room-Bounded :
        (n : ℕ) (r : RateLimiter F) (bs : List (Bucket F))
        → r.max_keys ≡ n
        → 0 < n
        → All Named bs
        → length bs ≤ n
        → All Named (with_room r bs) × (length (with_room r bs) < n)
    unfolding with_room
    with_room-Bounded n r bs e some_room a few = elim (Bool-cases (leb r.max_keys (length bs))) [
      | inl h ↦
          rw h (evict_one-Named bs a, ground (arith, evict_one-fewer bs a (ground (arith, h, e))))
      | inr h ↦ rw h (a, ground (arith, h, e))
    ]

    taken-Named :
        (key : String) (now : ℕ) (r : RateLimiter F) (c : Bucket F)
        → str_eq key "" ≡ false
        → has_key key c ≡ true
        → Named (take_token num (topped_up num r now c)).1
    taken-Named key now r c h k =
        let same = take_token-key (topped_up num r now c) ∙ topped_up-key r now c in
        rw (same, (eq_iff c.key key).0 k) h

    allow-Bounded :
        (n : ℕ) (key : String) (now : ℕ) (r : RateLimiter F)
        → 0 < n
        → str_eq key "" ≡ false
        → Bounded n r
        → Bounded n (allow num key now r).1
    unfolding allow purge
    allow-Bounded n key now r some_room named_key b =
        let kept = purge now r.buckets in
        let names : All Named kept = All-delete_where Named _ r.buckets b.names in
        let few : length kept ≤ n = purge-few now r.buckets n b.few in
        elim (Option-cases (first_where (has_key key) kept)) [
          | inl e ↦
              let room = with_room-Bounded n r kept b.max_keys some_room names few in
              rw (e, allow)
                (record {
                  max_keys = b.max_keys;
                  names = All-append Named _ _ room.0 (named_key, tt);
                  few = snoc-few (with_room r kept) _ n room.1;
                })
          | inr (c, e) ↦
              let taken = (take_token num (topped_up num r now c)).1 in
              rw (e, allow)
                (record {
                  max_keys = b.max_keys;
                  names =
                      All-update_where Named (has_key key) (λ _. taken)
                        (λ _ _ _. taken-Named key now r c named_key (first_where-holds _ kept c e))
                        kept names;
                  few = ground (arith, length-update_where (has_key key) (λ _. taken) kept, few);
                })
        ]

    unfoldable pub run_requests : List (String × ℕ) → RateLimiter F → RateLimiter F
    run_requests [] r = r
    run_requests (request ∷ requests) r = run_requests requests (allow num request.0 request.1 r).1

    run_requests-Bounded :
        (n : ℕ) (requests : List (String × ℕ)) (r : RateLimiter F)
        → 0 < n
        → All (λ (request : String × ℕ). str_eq request.0 "" ≡ false) requests
        → Bounded n r
        → Bounded n (run_requests requests r)
    unfolding run_requests
    run_requests-Bounded n [] r some_room keys b = b
    run_requests-Bounded n (request ∷ requests) r some_room keys b =
        run_requests-Bounded n requests _ some_room keys.1
          (allow-Bounded n request.0 request.1 r some_room keys.0 b)

    -- Whatever requests a new limiter is asked for, at whatever times, as long as none has the empty
    -- key it never keeps more than 4096 buckets.
    pub new_rate_limiter-Bounded :
        (capacity : ℤ) (refill : F) (requests : List (String × ℕ))
        → All (λ (request : String × ℕ). str_eq request.0 "" ≡ false) requests
        → Bounded 4096 (run_requests requests (new_rate_limiter num capacity refill))
    unfolding new_rate_limiter
    new_rate_limiter-Bounded capacity refill requests keys =
        run_requests-Bounded 4096 requests _ (omega arith) keys
          (record { max_keys = refl; names = tt; few = omega arith })
