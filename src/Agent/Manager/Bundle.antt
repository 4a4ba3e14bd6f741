-- ===== src/Agent/Manager/Bundle.antt =====
-- The bundle of the agent's manager, in its cache and in its file.
use spiffe_spire.Prelude.{
  ℕ, ◌≡◌, ◌↔◌, refl, sym, ap, inl, inr, true, false≢true, List, [], ◌∷◌, map, arith, ◌==◌,
  nat_comparable, beq→eq, beq_refl, Bool-cases, length, ltb,
}
use spiffe_spire.Prelude.Action.{ok}
use spiffe_spire.Prelude.Bytes.{same_bytes, same_bytes-eq, same_bytes_refl}
use spiffe_spire.Common.Messages.{Certificate}
use spiffe_spire.Agent.Cache.Invariant.{IsWellFormed}
use spiffe_spire.Agent.Cache.Delivery.{set_bundle-returns}
use spiffe_spire.Agent.Manager.{
  State, Config, all_equal, bundle_already_cached, bytes_of, store_bundle, set_bundle,
}
use spiffe_spire.Agent.Manager.Sync.{keep_bundle}

abbrev pub raws : List Certificate → List (List ℕ)
raws = map (λ c. c.raw)

heads : {A : Type 0} {x y : A} {xs ys : List A} → x ∷ xs ≡ y ∷ ys → x ≡ y
heads e = cc e

tails : {A : Type 0} {x y : A} {xs ys : List A} → x ∷ xs ≡ y ∷ ys → xs ≡ ys
tails e = cc e

all_equal-raws :
    (current bundle : List Certificate)
    → length bundle ≡ length current
    → (all_equal current bundle ≡ true) ↔ (raws current ≡ raws bundle)
unfolding all_equal
all_equal-raws [] [] l = ((λ h. refl), λ e. refl)
all_equal-raws [] (c ∷ bundle) l = absurd (omega (arith, l))
all_equal-raws (cert ∷ rest) [] l = absurd (omega (arith, l))
all_equal-raws (cert ∷ rest) (c ∷ bundle) l =
    let later = all_equal-raws rest bundle (omega (arith, l)) in
    (
      (λ h. elim (Bool-cases (same_bytes cert.raw c.raw)) [
        | inl same ↦ cc (same_bytes-eq cert.raw c.raw same, later.0 (rw same at h))
        | inr other ↦ absurd (false≢true (rw other at h))
      ]),
      λ e. rw (sym (heads e), same_bytes_refl cert.raw) (later.1 (tails e)),
    )

same_length : (a b : List Certificate) → raws a ≡ raws b → length b ≡ length a
same_length [] [] e = refl
same_length [] (c ∷ b) e = cc e
same_length (c ∷ a) [] e = cc e
same_length (c ∷ a) (d ∷ b) e = omega (arith, same_length a b (tails e))

-- The manager takes a bundle for the one that it has just where the certificates have the same
-- bytes, in the same order.
pub bundle_already_cached_iff :
    (current bundle : List Certificate)
    → (bundle_already_cached current bundle ≡ true) ↔ (raws current ≡ raws bundle)
unfolding bundle_already_cached
bundle_already_cached_iff current bundle = (
  (λ h. elim (Bool-cases (length bundle == length current)) [
    | inl same ↦
        (all_equal-raws current bundle (beq→eq (length bundle) (length current) same)).0
          (rw same at h)
    | inr other ↦ absurd (false≢true (rw other at h))
  ]),
  λ e.
      let l = same_length current bundle e in
      rw (l, beq_refl (length current)) ((all_equal-raws current bundle l).1 e),
)

module _ {W : Type 0} (config : Config W) (s : State W) (w : IsWellFormed s.manager.cache) where
  -- On a well-formed cache a new bundle of the manager reaches the cache, but what is written to the
  -- file before that is the bundle that the cache had.
  pub set_bundle-stores_old :
      (bundle : List Certificate)
      → (t : State W) × (set_bundle config bundle s ≡ (ok tt, t))
        × IsWellFormed t.manager.cache
        × (t.manager.cache.cache ≡ s.manager.cache.cache)
        × (t.manager.cache.bundle ≡ bundle)
        × (t.world
            ≡ (config.write_file config.bundle_cache_path
                (bytes_of s.manager.cache.bundle)
                s.world).1)
  unfolding set_bundle store_bundle
  set_bundle-stores_old bundle =
      let (c, e, wf, cache, same) = set_bundle-returns bundle s.manager.cache w in
      let stored =
        (config.write_file config.bundle_cache_path (bytes_of s.manager.cache.bundle) s.world).1 in
      (
        record { manager = record s.manager { cache = c }; world = stored },
        rw e refl,
        wf,
        cache,
        same,
        refl,
      )

  -- After a response of the server with a bundle that parses, on a well-formed cache, the cache has
  -- the certificates of that bundle, and the entries that it had.
  pub keep_bundle_lem :
      (last_bundle : List ℕ) (bundle : List Certificate)
      → ltb 0 (length last_bundle) ≡ true
      → config.parse_certificates last_bundle ≡ ok bundle
      → (t : State W) × (keep_bundle config last_bundle s ≡ (ok tt, t))
        × IsWellFormed t.manager.cache
        × (t.manager.cache.cache ≡ s.manager.cache.cache)
        × (raws t.manager.cache.bundle ≡ raws bundle)
  unfolding keep_bundle
  keep_bundle_lem last_bundle bundle some_bytes parsed =
      elim (Bool-cases (bundle_already_cached s.manager.cache.bundle bundle)) [
        | inl known ↦ (
          s,
          rw (some_bytes, parsed, known) refl,
          w,
          refl,
          (bundle_already_cached_iff s.manager.cache.bundle bundle).0 known,
        )
        | inr fresh ↦
            let (t, e, wf, cache, same, _) = set_bundle-stores_old bundle in
            (t, rw (some_bytes, parsed, fresh) e, wf, cache, ap raws same)
      ]
