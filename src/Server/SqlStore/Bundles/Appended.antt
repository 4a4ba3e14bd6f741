-- ===== src/Server/SqlStore/Bundles/Appended.antt =====
-- The certificates of a bundle after `AppendBundle`.
use mathlib.Core.List.Memᴰ
use spiffe_spire.Prelude.{
  ℕ, ◌≡◌, ◌↔◌, ◌⊎◌, refl, sym, inl, inr, ◌∙◌, Bool, true, false≢true, List, [], ◌∷◌, ◌++◌, map,
  Memᴰ, IsNodup, arith, ◌==◌, nat_comparable, string_comparable, Bool-cases, Option-cases, false,
  if◌then◌else◌,
}
use spiffe_spire.Prelude.Action.{Result, ok, ◌>>◌}
use spiffe_spire.Server.DataStore.{Bundle}
use spiffe_spire.Server.Gorm.{CaCert, BundleRow}
use spiffe_spire.Server.Gorm.Laws.{Reads, select}
use spiffe_spire.Server.SqlStore.{Plugin, transaction}
use spiffe_spire.Prelude.Bytes.{same_bytes, same_bytes-eq, same_bytes_refl}
use spiffe_spire.Server.SqlStore.Bundles.{
  contains, append_new, of_bundle, of_domain, bundle_to_model, model_to_bundle, create_bundle,
  append_to, append_model, append_bundle,
}

abbrev pub bytes_of : CaCert → List ℕ
bytes_of c = c.cert

found : (b c : Bool) → c ≡ true → (if b then true else c) ≡ true
found b c h = ground arith

-- `Contains` finds a certificate by its bytes.
pub contains_iff :
    (certs : List CaCert) (c : CaCert)
    → (contains certs c ≡ true) ↔ Memᴰ c.cert (map bytes_of certs)
unfolding contains
contains_iff [] c = ((λ h. absurd (false≢true h)), λ m. absurd (Memᴰ.not-nil m))
contains_iff (d ∷ rest) c = (
  (λ h. elim (Bool-cases (same_bytes d.cert c.cert)) [
    | inl same ↦ Memᴰ.head (sym (same_bytes-eq d.cert c.cert same))
    | inr other ↦ Memᴰ.tail ((contains_iff rest c).0 (rw other at h))
  ]),
  λ m. elim (Memᴰ.cases_cons m) [
    | inl same ↦ rw (sym same, same_bytes_refl c.cert) refl
    | inr later ↦ found (same_bytes d.cert c.cert) (contains rest c) ((contains_iff rest c).1 later)
  ],
)

map-append : (xs ys : List CaCert) → map bytes_of (xs ++ ys) ≡ map bytes_of xs ++ map bytes_of ys
map-append [] ys = refl
map-append (x ∷ xs) ys = rw (map-append xs ys) refl

append_assoc : (xs ys zs : List CaCert) → (xs ++ ys) ++ zs ≡ xs ++ (ys ++ zs)
append_assoc [] ys zs = refl
append_assoc (x ∷ xs) ys zs = rw (append_assoc xs ys zs) refl

append_nil : (xs : List CaCert) → xs ++ [] ≡ xs
append_nil [] = refl
append_nil (x ∷ xs) = rw (append_nil xs) refl

snoc-IsNodup : (xs : List (List ℕ)) (x : List ℕ) → IsNodup xs → ¬ Memᴰ x xs → IsNodup (xs ++ x ∷ [])
snoc-IsNodup [] x d fresh = (Memᴰ.not-nil, tt)
snoc-IsNodup (y ∷ ys) x d fresh = (
  (λ m. elim (Memᴰ.append_cases ys m) [
    | inl old ↦ d.0 old
    | inr new ↦ fresh (Memᴰ.head (sym (Memᴰ.eq_of_singleton new)))
  ]),
  snoc-IsNodup ys x d.1 (λ m. fresh (Memᴰ.tail m)),
)

-- What `AppendBundle` makes of two lists of certificates: those that were there, in their order, then new ones;
-- every certificate of the request is among them, and nothing else; and no two have the same bytes.
pub record Merged (certs new merged : List CaCert) : Type 0 where
  pub added : List CaCert
  pub kept : merged ≡ certs ++ added
  pub mem_iff :
      (b : List ℕ)
      → Memᴰ b (map bytes_of merged) ↔ (Memᴰ b (map bytes_of certs) ⊎ Memᴰ b (map bytes_of new))
  pub distinct : IsNodup (map bytes_of merged)

-- A certificate that is there already changes nothing.
Merged-cons_old :
    (certs rest merged : List CaCert) (c : CaCert)
    → Memᴰ c.cert (map bytes_of certs)
    → Merged certs rest merged
    → Merged certs (c ∷ rest) merged
Merged-cons_old certs rest merged c old r = record {
  added = r.added;
  kept = r.kept;
  mem_iff = λ b. (
    (λ m. elim ((r.mem_iff b).0 m) [ inl x ↦ inl x | inr y ↦ inr (Memᴰ.tail y) ]),
    (λ o. elim o [
      | inl x ↦ (r.mem_iff b).1 (inl x)
      | inr y ↦ elim (Memᴰ.cases_cons y) [
        | inl same ↦ (r.mem_iff b).1 (inl (Memᴰ.cast same old))
        | inr later ↦ (r.mem_iff b).1 (inr later)
      ]
    ]),
  );
  distinct = r.distinct;
}

Merged-cons_new :
    (certs rest merged : List CaCert) (c : CaCert)
    → Merged (certs ++ c ∷ []) rest merged
    → Merged certs (c ∷ rest) merged
Merged-cons_new certs rest merged c r = record {
  added = c ∷ r.added;
  kept = r.kept ∙ append_assoc certs (c ∷ []) r.added;
  mem_iff = λ b. (
    (λ m. elim ((r.mem_iff b).0 m) [
      | inl x ↦
          elim (Memᴰ.append_cases (map bytes_of certs) (rw (map-append certs (c ∷ [])) at x)) [
            | inl old ↦ inl old
            | inr new ↦ inr (Memᴰ.head (Memᴰ.eq_of_singleton new))
          ]
      | inr y ↦ inr (Memᴰ.tail y)
    ]),
    (λ o. elim o [
      | inl x ↦
          (r.mem_iff b).1 (inl (rw (map-append certs (c ∷ [])) (Memᴰ.append_left (c.cert ∷ []) x)))
      | inr y ↦ elim (Memᴰ.cases_cons y) [
        | inl same ↦ (r.mem_iff b).1 (
            inl (
              rw (map-append certs (c ∷ []))
                (Memᴰ.append_right (map bytes_of certs) (Memᴰ.head same))))
        | inr later ↦ (r.mem_iff b).1 (inr later)
      ]
    ]),
  );
  distinct = r.distinct;
}

-- The loop of `AppendBundle`, on certificates that are distinct.
append_new-Merged :
    (certs new : List CaCert)
    → IsNodup (map bytes_of certs)
    → Merged certs new (append_new certs new)
unfolding append_new
append_new-Merged certs [] d = record {
  added = [];
  kept = sym (append_nil certs);
  mem_iff = λ b. ((λ m. inl m), (λ o. elim o [ inl x ↦ x | inr y ↦ absurd (Memᴰ.not-nil y) ]));
  distinct = d;
}
append_new-Merged certs (c ∷ rest) d = elim (Bool-cases (contains certs c)) [
  | inl old ↦ rw old (
      Merged-cons_old certs rest (append_new certs rest) c ((contains_iff certs c).0 old)
        (append_new-Merged certs rest d))
  | inr new ↦ rw new (
      Merged-cons_new certs rest (append_new (certs ++ c ∷ []) rest) c (
        append_new-Merged (certs ++ c ∷ []) rest (
          rw (map-append certs (c ∷ [])) (
            snoc-IsNodup (map bytes_of certs) c.cert d
              λ m. false≢true (sym new ∙ (contains_iff certs c).1 m)))))
]

module _ {σ : Type 0} (ds : Plugin σ) (rows_of : σ → List BundleRow) (certs_of : σ → List CaCert)
    (bundle_reads : Reads ds.db.bundles rows_of) (cert_reads : Reads ds.db.ca_certs certs_of) where
  -- The certificates that are stored for a bundle.
  abbrev pub stored : BundleRow → σ → List CaCert
  stored model s = select (of_bundle model.id) (certs_of s)

  -- `AppendBundle` has appended to a stored bundle of the domain: in a transaction, the row is saved
  -- with the merged certificates, and answered.
  pub record Extended (new_model : BundleRow) (s : σ) (answer : Result Bundle × σ) : Type 0 where
    pub model : BundleRow
    pub there : Memᴰ model (rows_of s)
    pub same_domain : (model.trust_domain == new_model.trust_domain) ≡ true
    pub merged : List CaCert
    pub is_merged : Merged (stored model s) new_model.ca_certs merged
    pub saved :
        answer
        ≡ transaction ds.db
            (do
              ds.db.bundles.save (record model { ca_certs = merged })
              model_to_bundle ds (record model { ca_certs = merged }))
            s

  -- While the queries of the database answer: where the request parses, and where no two of the
  -- certificates that are stored for one bundle have the same bytes, `AppendBundle` does one of two
  -- things. When a bundle of the trust domain is stored, then in a transaction it saves that row with
  -- its stored certificates, in their order, followed by new ones, so that the certificates are those
  -- stored and those of the request and no others, and no two have the same bytes; the answer is made
  -- of that row. When none is stored, it rolls the transaction back and creates the bundle.
  pub append_bundle-Extended :
      (req : Bundle) (new_model : BundleRow) (s : σ)
      → bundle_to_model ds req s ≡ (ok new_model, s)
      → ((model : BundleRow) → Memᴰ model (rows_of s) → IsNodup (map bytes_of (stored model s)))
      → (((model : BundleRow)
            → Memᴰ model (rows_of s)
            → (model.trust_domain == new_model.trust_domain) ≡ false)
          × (append_bundle ds req s ≡ create_bundle ds req (ds.db.rollback s s)))
        ⊎ Extended new_model s (append_bundle ds req s)
  unfolding append_bundle append_model append_to
  append_bundle-Extended req new_model s parsed distinct =
      elim (Option-cases (bundle_reads.pick (of_domain new_model.trust_domain) s)) [
        | inl missing ↦ inl (
          (λ model m. bundle_reads.pick_none (of_domain new_model.trust_domain) s model missing m),
          rw (parsed, bundle_reads.find_one_lem (of_domain new_model.trust_domain) s, missing) refl,
        )
        | inr (model, here) ↦
            let (m, fits) =
              bundle_reads.pick_some (of_domain new_model.trust_domain) s model here in
            inr (record {
              model = model;
              there = m;
              same_domain = fits;
              merged = append_new (stored model s) new_model.ca_certs;
              is_merged = append_new-Merged (stored model s) new_model.ca_certs (distinct model m);
              saved =
                  rw
                    (
                      parsed,
                      bundle_reads.find_one_lem (of_domain new_model.trust_domain) s,
                      here,
                      cert_reads.find_lem (of_bundle model.id) s,
                    )
                    refl;
            })
      ]
