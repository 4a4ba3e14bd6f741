-- ===== src/Server/Registration/Validation.antt =====
-- What `ValidateSpiffeID` accepts.
use text.Mathlib.Text.{starts_with}
use spiffe_spire.Prelude.{
  ◌≡◌, ◌≢◌, ◌↔◌, refl, sym, ap, subst, inl, inr, String, Bool, true, false, not, Option, none, some,
  ◌==◌, string_comparable, beq→eq, beq_refl, Bool-cases, if◌then◌else◌, is_some,
}
use spiffe_spire.Prelude.Action.{Result, ok, failed, ok-injective}
use spiffe_spire.Server.Registration.{
  Url, UrlPackage, validate_url, validate_parsed, validate_spiffe_id,
}

-- The URL of a workload of the trust domain: nothing but a scheme, a host and a path, outside the
-- namespace that is reserved.
pub record IsWorkloadUrl (id : Url) (trust_host : String) : Type 0 where
  pub no_fragment : id.fragment ≡ ""
  pub no_query : id.raw_query ≡ ""
  pub no_port : id.port ≡ ""
  pub no_user : id.user ≡ none
  pub scheme : id.scheme ≡ "spiffe"
  pub host : id.host ≡ trust_host
  pub some_host : id.host ≢ ""
  pub some_path : id.path ≢ ""
  pub not_reserved : starts_with id.path "/spire" ≡ false

-- A guard that rejects.
guard_iff :
    {A : Type 0} (b : Bool) (why : String) (r : Result A) (a : A)
    → ((if b then failed why else r) ≡ ok a) ↔ ((b ≡ false) × (r ≡ ok a))
guard_iff true why r a = ((λ e. cc e), λ e. cc (e.0))
guard_iff false why r a = ((λ e. (refl, e)), λ e. e.1)

unequal : (s t : String) → (not (s == t) ≡ false) ↔ (s ≡ t)
unequal s t = (
  λ e. elim (Bool-cases (s == t)) [ inl hit ↦ beq→eq s t hit | inr miss ↦ cc (rw miss at e) ],
  λ e. rw (e, beq_refl t) refl,
)

differ : (s t : String) → ((s == t) ≡ false) ↔ (s ≢ t)
differ s t = (
  λ e p. cc (e, ap (λ x. x == t) p, beq_refl t),
  λ ne. elim (Bool-cases (s == t)) [ inl hit ↦ absurd (ne (beq→eq s t hit)) | inr miss ↦ miss ],
)

absent : {A : Type 0} (o : Option A) → (is_some o ≡ false) ↔ (o ≡ none)
absent none = ((λ e. refl), λ e. refl)
absent (some a) = ((λ e. cc e), λ e. cc e)

reject :
    {A : Type 0} {P Q : Type 0} {b : Bool} (why : String) {r : Result A} {a : A}
    → ((b ≡ false) ↔ P)
    → ((r ≡ ok a) ↔ Q)
    → ((if b then failed why else r) ≡ ok a) ↔ (P × Q)
reject {b} why {r} {a} p q = (
  λ e. let (x, y) = (guard_iff b why r a).0 e in (p.0 x, q.0 y),
  λ e. (guard_iff b why r a).1 (p.1 e.0, q.1 e.1),
)

module _ (url : UrlPackage) (id : Url) (trust_host : String) where
  chain : (validate_url url id trust_host ≡ ok tt) ↔ (
      (id.fragment ≡ "")
      × ((id.raw_query ≡ "")
          × ((id.port ≡ "")
              × ((id.user ≡ none)
                  × ((id.scheme ≡ "spiffe")
                      × ((id.host ≢ "")
                          × ((id.path ≢ "")
                              × ((starts_with id.path "/spire" ≡ false)
                                  × ((id.host ≡ trust_host) × (ok tt ≡ ok tt))))))))))
  unfolding validate_url
  chain = reject _ (unequal _ _) (
      reject _ (unequal _ _) (
        reject _ (unequal _ _) (
          reject _ (absent _) (
            reject _ (unequal _ _) (
              reject _ (differ _ _) (
                reject _ (differ _ _) (
                  reject _ ((λ e. e), λ e. e)
                    (reject _ (unequal _ _) ((λ e. refl), λ e. refl)))))))))

  validate_url_iff : (validate_url url id trust_host ≡ ok tt) ↔ IsWorkloadUrl id trust_host
  validate_url_iff = (
    λ e.
        let (a, (b, (c, (d, (f, (g, (h, (i, (j, _))))))))) = chain.0 e in
        record {
          no_fragment = a;
          no_query = b;
          no_port = c;
          no_user = d;
          scheme = f;
          host = j;
          some_host = g;
          some_path = h;
          not_reserved = i;
        },
    λ w. chain.1 (
      w.no_fragment,
      (
        w.no_query,
        (
          w.no_port,
          (w.no_user, (w.scheme, (w.some_host, (w.some_path, (w.not_reserved, (w.host, refl)))))),
        ),
      ),
    ),
  )

module _ (url : UrlPackage) (trust_host : String) where
  validate_parsed_iff :
      (r : Result Url)
      → (validate_parsed url r trust_host ≡ ok tt)
        ↔ ((id : Url) × (r ≡ ok id) × IsWorkloadUrl id trust_host)
  unfolding validate_parsed
  validate_parsed_iff (ok id) = (
    λ e. (id, refl, (validate_url_iff url id trust_host).0 e),
    λ (id', same, w).
        (validate_url_iff url id trust_host).1
          (subst (λ x. IsWorkloadUrl x trust_host) (sym (ok-injective id id' same)) w),
  )
  validate_parsed_iff (failed why) = ((λ e. cc e), λ (id, same, w). cc same)

-- `ValidateSpiffeID` accepts exactly the non-empty texts that parse to the URL of a workload of the
-- configured trust domain, whose host is not empty.
pub validate_spiffe_id_iff :
    (url : UrlPackage) (spiffe_id trust_host : String)
    → (validate_spiffe_id url spiffe_id trust_host ≡ ok tt) ↔ (
        (trust_host ≢ "")
        × ((spiffe_id ≢ "")
            × ((id : Url) × (url.parse spiffe_id ≡ ok id) × IsWorkloadUrl id trust_host)))
unfolding validate_spiffe_id
validate_spiffe_id_iff url spiffe_id trust_host =
    reject _ (differ _ _)
      (reject _ (differ _ _) (validate_parsed_iff url trust_host (url.parse spiffe_id)))
