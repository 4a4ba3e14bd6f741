-- ===== src/Server/CaManager/Rotation.antt =====
-- How the certificates of the manager move.
use spiffe_spire.Prelude.{
  ℕ, ◌/◌, ◌≡◌, ◌⊎◌, refl, sym, subst, inl, inr, true, false, Option, none, some, List, Bool-cases,
  if◌then◌else◌, is_some,
}
use spiffe_spire.Prelude.Action.{ok, return, Result-cases, Call-cases}
use spiffe_spire.Common.Messages.{Certificate}
use spiffe_spire.Server.CaManager.{
  Config, Manager, lifetime, less_left, store_ca_cert, prepare_next_ca, activate, activate_next_ca,
  rotate, ca_rotate,
}

module _ {σ : Type 0} (c : Config σ) where
  -- The certificates are as they were.
  pub record Same (w w' : Manager σ) : Type 0 where
    pub ca_cert : w'.ca_cert ≡ w.ca_cert
    pub next_ca_cert : w'.next_ca_cert ≡ w.next_ca_cert

  -- A certificate stands ready that the store has added to the bundle.
  pub record Prepared (w w' : Manager σ) : Type 0 where
    pub cert : Certificate
    pub upstream : List ℕ
    pub before : σ
    pub ca_cert : w'.ca_cert ≡ w.ca_cert
    pub next_ca_cert : w'.next_ca_cert ≡ some cert
    pub stored : store_ca_cert c cert upstream before ≡ (ok tt, w'.world)

  -- The certificate that stood ready has become the active one, and the CA plugin has loaded it.
  pub record Activated (w w' : Manager σ) : Type 0 where
    pub cert : Certificate
    pub was_next : w.next_ca_cert ≡ some cert
    pub ca_cert : w'.ca_cert ≡ some cert
    pub next_ca_cert : w'.next_ca_cert ≡ none
    pub loaded : c.load_certificate cert.raw w.world ≡ (ok tt, w'.world)

  -- `prepareNextCA` either leaves the certificates of the manager alone, or it makes ready a new
  -- one that the store has before added to the bundle.
  pub prepare_next_ca_lem :
      (w : Manager σ) → Same w (prepare_next_ca c w).1 ⊎ Prepared w (prepare_next_ca c w).1
  unfolding prepare_next_ca
  prepare_next_ca_lem w = elim (Call-cases (c.generate_csr w.world)) [
    | inr (_, t, e) ↦ inl (rw e (record { ca_cert = refl; next_ca_cert = refl }))
    | inl (csr, t, e) ↦ elim (Call-cases (c.submit_csr csr t)) [
      | inr (_, u, f) ↦ inl (rw (e, f) (record { ca_cert = refl; next_ca_cert = refl }))
      | inl (signed, u, f) ↦ elim (Result-cases (c.parse_certificate signed.cert)) [
        | inr (_, g) ↦ inl (rw (e, f, g) (record { ca_cert = refl; next_ca_cert = refl }))
        | inl (cert, g) ↦ elim (Call-cases (store_ca_cert c cert signed.upstream_trust_bundle u)) [
          | inr (_, v, h) ↦ inl (rw (e, f, g, h) (record { ca_cert = refl; next_ca_cert = refl }))
          | inl (_, v, h) ↦ inr (
              rw (e, f, g, h)
                (record {
                  cert = cert;
                  upstream = signed.upstream_trust_bundle;
                  before = u;
                  ca_cert = refl;
                  next_ca_cert = refl;
                  stored = h;
                }))
        ]
      ]
    ]
  ]

  activate_lem :
      (w : Manager σ) (next : Option Certificate)
      → w.next_ca_cert ≡ next
      → Same w (activate c next w).1 ⊎ Activated w (activate c next w).1
  activate_lem w none e = inl (record { ca_cert = refl; next_ca_cert = refl })
  activate_lem w (some cert) e = elim (Call-cases (c.load_certificate cert.raw w.world)) [
    | inr (_, t, f) ↦ inl (rw f (record { ca_cert = refl; next_ca_cert = refl }))
    | inl (_, t, f) ↦ inr (
        rw f
          (record { cert = cert; was_next = e; ca_cert = refl; next_ca_cert = refl; loaded = f }))
  ]

  -- `activateNextCA` either leaves the certificates of the manager alone, or the CA plugin has loaded
  -- the one that stood ready, which is then the active one.
  pub activate_next_ca_lem :
      (w : Manager σ) → Same w (activate_next_ca c w).1 ⊎ Activated w (activate_next_ca c w).1
  unfolding activate_next_ca
  activate_next_ca_lem w = activate_lem w w.next_ca_cert refl

  -- What `caRotate` may do to a manager whose active certificate is `cert`: nothing to its
  -- certificates; make a new one ready, when none is and half of the lifetime is over; activate the
  -- one that stands ready, when five sixths of the lifetime are over.
  pub data Rotated (now : ℕ) (cert : Certificate) (w w' : Manager σ) : Type 0 where
    stays : Same w w' → Rotated now cert w w'
    prepares :
        w.next_ca_cert ≡ none
        → less_left now cert (lifetime cert / 2) ≡ true
        → Prepared w w'
        → Rotated now cert w w'
    activates :
        less_left now cert (lifetime cert / 6) ≡ true → Activated w w' → Rotated now cert w w'

  none_ready : (o : Option Certificate) → is_some o ≡ false → o ≡ none
  none_ready none e = refl
  none_ready (some a) e = cc e

  late_enough :
      (now : ℕ) (cert : Certificate) (w : Manager σ)
      → Rotated now cert w
          (if less_left now cert (lifetime cert / 6) then activate_next_ca c w else return tt w).1
  late_enough now cert w = elim (Bool-cases (less_left now cert (lifetime cert / 6))) [
    | inr early ↦ rw early (stays (record { ca_cert = refl; next_ca_cert = refl }))
    | inl late ↦ rw late (elim (activate_next_ca_lem w) [
      | inl same ↦ stays same
      | inr active ↦ activates late active
    ])
  ]

  rotate_lem :
      (now : ℕ) (cert : Certificate) (w : Manager σ)
      → Rotated now cert w (rotate c now (some cert) w).1
  rotate_lem now cert w = elim (Bool-cases (less_left now cert (lifetime cert / 2))) [
    | inr early ↦ rw early (late_enough now cert w)
    | inl half ↦ elim (Bool-cases (is_some w.next_ca_cert)) [
      | inl ready ↦ rw (half, ready) (late_enough now cert w)
      | inr missing ↦
          rw (half, missing)
            (elim (prepare_next_ca_lem w) [
              | inl same ↦ stays same
              | inr made ↦ prepares (none_ready w.next_ca_cert missing) half made
            ])
    ]
  ]

  -- Whatever fails, `caRotate` of a manager with an active certificate keeps the certificates as
  -- they are, or makes a new one ready that the store has added to the bundle (none was ready, and
  -- half of the lifetime of the active one is over), or activates the one that was ready and that
  -- the CA plugin has loaded (five sixths of the lifetime are over).
  pub ca_rotate_lem :
      (now : ℕ) (cert : Certificate) (w : Manager σ)
      → w.ca_cert ≡ some cert
      → Rotated now cert w (ca_rotate c now w).1
  unfolding ca_rotate
  ca_rotate_lem now cert w e =
      subst (λ o. Rotated now cert w (rotate c now o w).1) (sym e) (rotate_lem now cert w)
