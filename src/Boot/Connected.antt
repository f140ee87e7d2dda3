-- ===== src/Boot/Connected.antt =====
-- How the beginning of a process ends (cmd/api/main.go and cmd/worker/main.go, main).
use web_gobbler.Prelude.{
  ℕ, ◌<◌, str_eq, str_eq_iff_to, str_eq_iff_from, true, false, ◌≡◌, ◌≢◌, refl, sym, subst, ◌⊎◌, inl,
  inr, Bool-cases,
}
use web_gobbler.Store.Connect.{
  bad_config, no_pool, ctx_ended, ping_failed, Connection, opened, pool_config, new_store, Pauses,
}
use web_gobbler.Store.Connecting.{new_store_lem}
use web_gobbler.Boot.{
  bad_url, no_answer, new_queue, Outside, no_urls, no_schema, no_store, no_queue, Start, started,
  exits, unfinished, database_url, redis_url, start_store, start_up,
}

module _ (o : Outside) where
  abbrev HasUrls : Type 0
  HasUrls = (database_url o ≢ "") × (redis_url o ≢ "")

  -- What must hold for the process to go on or to exit the way it does.
  abbrev pub Explained : Start → Type 0
  Explained (started config url) =
      HasUrls
      × (config ≡ pool_config (database_url o))
      × (url ≡ redis_url o)
      × ((n : ℕ) × (n < 122) × (o.server.ping n ≡ true))
      × (o.migrates ≡ true)
      × (o.redis.parses (redis_url o) ≡ true)
      × (o.redis.answers (redis_url o) ≡ true)
  Explained (exits no_urls) = (database_url o ≡ "") ⊎ (redis_url o ≡ "")
  Explained (exits no_schema) = HasUrls × (o.migrates ≡ false)
  Explained (exits (no_store bad_config)) = HasUrls × (o.server.parses (database_url o) ≡ false)
  Explained (exits (no_store no_pool)) =
      HasUrls × (o.server.makes_pool (pool_config (database_url o)) ≡ false)
  Explained (exits (no_store ping_failed)) =
      HasUrls
      × ((n : ℕ) × (n < 122)
          × ((m : ℕ) → m < n → o.server.ping m ≡ false)
          × (o.server.ping n ≡ false)
          × (60_000 < o.server.elapsed_ms n))
  Explained (exits (no_store ctx_ended)) =
      HasUrls × ((n : ℕ) × (n < 122) × ((o.server.ctx_err n ≡ true) ⊎ (o.server.ctx_done n ≡ true)))
  Explained (exits (no_queue bad_url)) = HasUrls × (o.redis.parses (redis_url o) ≡ false)
  Explained (exits (no_queue no_answer)) = HasUrls × (o.redis.answers (redis_url o) ≡ false)
  Explained unfinished = ⊥

  -- With the database connected.
  opened-Explained :
      HasUrls
      → ((n : ℕ) × (n < 122) × (o.server.ping n ≡ true))
      → Explained (start_store o (opened (pool_config (database_url o))))
  unfolding new_queue
  opened-Explained urls answered = elim (Bool-cases o.migrates) [
    | inr e ↦ rw e (urls, refl)
    | inl migrates ↦ elim (Bool-cases (o.redis.parses (redis_url o))) [
      | inr e ↦ rw (migrates, e) (urls, e)
      | inl parses ↦ elim (Bool-cases (o.redis.answers (redis_url o))) [
        | inr e ↦ rw (migrates, parses, e) (urls, e)
        | inl answers ↦
            rw (migrates, parses, answers) (urls, refl, refl, answered, refl, parses, answers)
      ]
    ]
  ]

  by_store : {c d : Connection} → c ≡ d → Explained (start_store o d) → Explained (start_store o c)
  by_store e done = subst (λ x. Explained (start_store o x)) (sym e) done

  store-Explained :
      Pauses o.server → HasUrls → Explained (start_store o (new_store o.server (database_url o)))
  store-Explained pauses urls = elim (new_store_lem o.server pauses (database_url o)) [
    | inl (bad, e) ↦ by_store e (urls, bad)
    | inr (inl (good, none_made, e)) ↦ by_store e (urls, none_made)
    | inr (inr (good, made, ended)) ↦ elim ended.why [
      | inl (e, answered) ↦ by_store e (opened-Explained urls (ended.pings, ended.few, answered))
      | inr (inl (e, silent, late)) ↦
          by_store e (urls, (ended.pings, ended.few, ended.unanswered, silent, late))
      | inr (inr (e, silent, over)) ↦ by_store e (urls, (ended.pings, ended.few, over))
    ]
  ]

  -- With pauses of half a second, both mains come to the end of their beginning: they go on with
  -- the pool of the database's URL and with the queue's, both URLs given, a ping answered among the
  -- first 122, the schema applied, and Redis's URL read and its ping answered; or they exit, with a
  -- reason that holds.
  pub start_up_lem : Pauses o.server → Explained (start_up o)
  unfolding start_up
  start_up_lem pauses = elim (Bool-cases (str_eq (database_url o) "")) [
    | inl e ↦ rw e (inl (str_eq_iff_to (database_url o) "" e))
    | inr d ↦ elim (Bool-cases (str_eq (redis_url o) "")) [
      | inl e ↦ rw (d, e) (inr (str_eq_iff_to (redis_url o) "" e))
      | inr r ↦
          rw (d, r)
            (store-Explained pauses (
              λ e. cc (str_eq_iff_from (database_url o) "" e, d),
              λ e. cc (str_eq_iff_from (redis_url o) "" e, r),
            ))
    ]
  ]
