-- ===== src/Server/CaManager/Pruning.antt =====
-- What `prune` writes.
use mathlib.Core.List.Memᴰ
use mathlib.Core.List.{filter}
use mathlib.Core.Logic.{if_pos, if_neg}
use native.Mathlib.Decide.{dec_lt}
use spiffe_spire.Prelude.{
  ℕ, ◌+◌, ◌<◌, ◌≡◌, ◌≢◌, ◌⊎◌, refl, sym, ap, inl, inr, true, false, List, [], ◌∷◌, ◌++◌, Memᴰ, ◌==◌,
  nat_comparable, arith, Bool-cases, length, ltb, ◌∙◌,
}
use spiffe_spire.Prelude.Action.{ok, failed, extend-state}
use spiffe_spire.Common.Messages.{Certificate}
use spiffe_spire.Server.DataStore.{Bundle}
use spiffe_spire.Server.CaManager.{Config, day, kept, reload, prune}

-- The certificate is valid, or has been invalid for less than a day.
abbrev pub IsRecent : ℕ → Certificate → Type 0
IsRecent now c = now < c.not_after + day

-- The recent certificates, in their order.
abbrev pub recent : ℕ → List Certificate → List Certificate
recent now certs = filter (λ c. dec_lt now (c.not_after + day)) certs

-- The bytes of certificates, one after the other.
abbrev pub all_raw : List Certificate → List ℕ
all_raw [] = []
all_raw (c ∷ certs) = c.raw ++ all_raw certs

is_recent : (now until : ℕ) → ltb now until ≡ true → now < until
is_recent now until e = ground arith

recent_is : (now until : ℕ) → now < until → ltb now until ≡ true
recent_is now until h = ground arith

not_recent : (now until : ℕ) → ltb now until ≡ false → ¬ (now < until)
not_recent now until e = ground arith

stale_is : (now until : ℕ) → ¬ (now < until) → ltb now until ≡ false
stale_is now until h = ground arith

-- The loop of `prune` keeps the bytes of the recent certificates.
kept-recent : (now : ℕ) (certs : List Certificate) → kept now certs ≡ all_raw (recent now certs)
unfolding kept
kept-recent now [] = refl
kept-recent now (c ∷ certs) = elim (dec_lt now (c.not_after + day)) [
  | yes h ↦
      rw (if_pos (dec_lt now (c.not_after + day)) h, recent_is now _ h)
        (ap (λ rest. c.raw ++ rest) (kept-recent now certs))
  | no h ↦ rw (if_neg (dec_lt now (c.not_after + day)) h, stale_is now _ h) (kept-recent now certs)
]

reload-stale :
    (now : ℕ) (certs : List Certificate)
    → reload now certs ≡ true
    → (cert : Certificate) × Memᴰ cert certs × (¬ IsRecent now cert)
unfolding reload
reload-stale now [] e = cc e
reload-stale now (cert ∷ certs) e = elim (Bool-cases (ltb now (cert.not_after + day))) [
  | inr stale ↦ (cert, Memᴰ.head refl, not_recent now _ stale)
  | inl fresh ↦
      let (other, m, stale) = reload-stale now certs (rw fresh at e) in (other, Memᴰ.tail m, stale)
]

reload-IsRecent :
    (now : ℕ) (certs : List Certificate)
    → reload now certs ≡ false
    → (cert : Certificate) → Memᴰ cert certs
    → IsRecent now cert
unfolding reload
reload-IsRecent now [] e cert m = absurd (Memᴰ.not-nil m)
reload-IsRecent now (first ∷ certs) e cert m = elim (Bool-cases (ltb now (first.not_after + day))) [
  | inr stale ↦ cc (rw stale at e)
  | inl fresh ↦ elim (Memᴰ.cases_cons m) [
    | inl same ↦ rw same (is_recent now _ fresh)
    | inr later ↦ reload-IsRecent now certs (rw fresh at e) cert later
  ]
]

no_bytes : (bytes : List ℕ) → (length bytes == 0) ≡ true → bytes ≡ []
no_bytes [] e = refl
no_bytes (b ∷ bytes) e = ground arith

some_bytes : (bytes : List ℕ) → (length bytes == 0) ≡ false → bytes ≢ []
some_bytes [] e p = cc e
some_bytes (b ∷ bytes) e p = cc p

module _ {σ : Type 0} (c : Config σ) (now : ℕ) (s t : σ) (old : Bundle) (certs : List Certificate)
    (fetched : c.ds.fetch_bundle c.trust_domain s ≡ (ok old, t))
    (parsed : c.parse_certificates old.ca_certs ≡ ok certs) where
  -- `prune` has written a bundle.
  pub record Written (s' : σ) : Type 0 where
    pub stale : Certificate
    pub there : Memᴰ stale certs
    pub expired : ¬ IsRecent now stale
    pub some_left : all_raw (recent now certs) ≢ []
    pub written :
        s'
        ≡ (c.ds.update_bundle
            (record { trust_domain = old.trust_domain; ca_certs = all_raw (recent now certs) })
            t).1

  -- When the store has a bundle that parses, one of three holds. The recent certificates, those that
  -- are valid or expired less than a day ago, have no bytes: then `prune` fails and writes nothing.
  -- All certificates are recent: then it succeeds and writes nothing. Or some certificate expired a
  -- day ago or more, and the recent ones have bytes: then it hands the store a bundle with the bytes
  -- of the recent certificates, in their order.
  pub prune_lem :
      ((prune c now s ≡ (failed "would prune all certificates", t))
        × (all_raw (recent now certs) ≡ []))
      ⊎ (((prune c now s ≡ (ok tt, t))
            × ((cert : Certificate) → Memᴰ cert certs → IsRecent now cert))
          ⊎ Written (prune c now s).1)
  unfolding prune
  prune_lem = elim (Bool-cases (length (kept now certs) == 0)) [
    | inl nothing ↦ inl (
      rw (fetched, parsed, nothing) refl,
      sym (kept-recent now certs) ∙ no_bytes (kept now certs) nothing,
    )
    | inr left ↦ elim (Bool-cases (reload now certs)) [
      | inr all_recent ↦
          inr (
            inl (rw (fetched, parsed, left, all_recent) refl, reload-IsRecent now certs all_recent))
      | inl some_stale ↦
          let (stale, m, e) = reload-stale now certs some_stale in
          inr (
            inr (
              rw (fetched, parsed, left, some_stale)
                (record {
                  stale = stale;
                  there = m;
                  expired = e;
                  some_left = λ p. some_bytes (kept now certs) left (kept-recent now certs ∙ p);
                  written = rw (← kept-recent now certs) (extend-state "write new bundle" _);
                })))
    ]
  ]
