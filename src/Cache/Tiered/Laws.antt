-- ===== src/Cache/Tiered/Laws.antt =====
-- What a lookup returns after a store.
use neu_rust.Prelude.Keys.{nat_eq, text_eq}
use neu_rust.Prelude.{◌≡◌, ◌≤◌, ◌-◌, none, some, ℕ, sym, arith}
use neu_rust.Cache.Exact.{get, insert, ExactCache, insert_with_ttl, insert_entry}
use neu_rust.Cache.Tiered.{lookup, store, Semantic, TieredCache, lookup_semantic}
use neu_rust.Cache.Key.{Hasher, compute_cache_key, key_chunks}
use neu_rust.Contracts.{UnifiedResponse, UnifiedRequest, last_user_message}
use neu_rust.Cache.Exact.Reads.{get-insert_with_ttl}
use neu_rust.Prelude.Text.{concat}

get-insert :
    (now later : ℕ) (c : ExactCache) (hash : ℕ) (response : UnifiedResponse)
    → later - now ≤ c.default_ttl
    → (get later (insert now c hash response) hash).1 ≡ some response
unfolding insert
get-insert now later c hash response h =
    get-insert_with_ttl now later c hash response c.default_ttl h

get-default_ttl :
    (now : ℕ) (c : ExactCache) (hash : ℕ) → (get now c hash).0.default_ttl ≡ c.default_ttl
unfolding get
get-default_ttl now c hash = ground arith

module _ {S : Type 0} (sem : Semantic S) (h : Hasher) where
  pub lookup_of_exact :
      (now : ℕ) (t : TieredCache S) (r : UnifiedRequest) (response : UnifiedResponse)
      → (get now t.exact (compute_cache_key h r)).1 ≡ some response
      → (lookup sem h now t r).1 ≡ some response
  unfolding lookup
  lookup_of_exact now t r response e = ground arith

  -- A lookup leaves the default time to live as it is.
  pub lookup-default_ttl :
      (now : ℕ) (t : TieredCache S) (r : UnifiedRequest)
      → (lookup sem h now t r).0.exact.default_ttl ≡ t.exact.default_ttl
  unfolding lookup lookup_semantic insert insert_with_ttl insert_entry
  lookup-default_ttl now t r = ground (arith, get-default_ttl now t.exact (compute_cache_key h r))

  -- A response that is stored for one request is returned for every request whose bytes under the
  -- hash are the same, as long as no more than the default time to live has passed.
  pub lookup-store :
      (now later : ℕ) (t : TieredCache S) (a b : UnifiedRequest) (response : UnifiedResponse)
      → later - now ≤ t.exact.default_ttl
      → concat (key_chunks a) ≡ concat (key_chunks b)
      → (lookup sem h later (store sem h now t a response) b).1 ≡ some response
  unfolding store compute_cache_key
  lookup-store now later t a b response fresh same =
      let key : compute_cache_key h b ≡ compute_cache_key h a =
        sym (h.streams (key_chunks a) (key_chunks b) same) in
      lookup_of_exact later (store sem h now t a response) b response
        (rw key (get-insert now later t.exact (compute_cache_key h a) response fresh))

  -- An answer of the semantic tier is promoted: within the time to live the next lookup of the
  -- request is answered by the exact tier alone, whatever the semantic tier would say.
  pub lookup_promotes :
      (now later : ℕ) (t : TieredCache S) (s : S) (r : UnifiedRequest) (response : UnifiedResponse)
      → t.semantic ≡ some s
      → (get now t.exact (compute_cache_key h r)).1 ≡ none
      → (sem.lookup now s (last_user_message r)).1 ≡ some response
      → later - now ≤ t.exact.default_ttl
      → ((lookup sem h now t r).1 ≡ some response)
        × ((get later (lookup sem h now t r).0.exact (compute_cache_key h r)).1 ≡ some response)
  unfolding lookup
  lookup_promotes now later t s r response used missed answered fresh = ground (
    arith,
    get-insert now later (get now t.exact (compute_cache_key h r)).0 (compute_cache_key h r)
        response,
    get-default_ttl now t.exact (compute_cache_key h r),
  )
