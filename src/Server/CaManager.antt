-- ===== src/Server/CaManager.antt =====
-- pkg/server/ca/manager.go: the certificate that the server signs with, the one that is to replace
-- it, and the bundle of CA certificates in the data store.
-- The plugins, the store and crypto/x509 are parameters; the plugins and the store work on a world
-- `σ`. `now` is time.Now(). No certificate ends before it begins. The two loops that call
-- `ca_rotate` and `prune` on ticks are not modelled.
pub mod Rotation
pub mod Pruning
use spiffe_spire.Prelude.{
  ℕ, ◌+◌, ◌-◌, ◌*◌, ◌/◌, String, Bool, true, false, ◌&&◌, not, Option, none, some, List, [], ◌∷◌,
  ◌++◌, ◌==◌, nat_comparable, if◌then◌else◌, is_some, ltb, length,
}
use spiffe_spire.Prelude.Action.{Action, Result, ok, return, fail, lift, ◌>>=◌, ◌>>◌, or_errorf}
use spiffe_spire.Common.Messages.{Certificate}
use spiffe_spire.Server.DataStore.{DataStore, Bundle}

-- What the upstream CA answers to a CSR.
pub record Signed : Type 0 where
  pub cert : List ℕ
  pub upstream_trust_bundle : List ℕ

pub record Config (σ : Type 0) : Type 0 where
  pub generate_csr : Action σ (List ℕ)
  pub load_certificate : List ℕ → Action σ Unit
  pub submit_csr : List ℕ → Action σ Signed
  pub ds : DataStore σ
  pub parse_certificate : List ℕ → Result Certificate
  pub parse_certificates : List ℕ → Result (List Certificate)
  pub trust_domain : String
  pub upstream_bundle : Bool

-- The manager beside the world.
pub record Manager (σ : Type 0) : Type 0 where
  pub ca_cert : Option Certificate
  pub next_ca_cert : Option Certificate
  pub world : σ

-- 24 hours in nanoseconds.
abbrev pub day : ℕ
day = 86400000000000

abbrev pub lifetime : Certificate → ℕ
lifetime c = c.not_after - c.not_before

-- The time that is left at `now` is less than `part`.
abbrev pub less_left : ℕ → Certificate → ℕ → Bool
less_left now c part = ltb c.not_after (now + part)

-- The loop of `prune`: the bytes of the certificates that are kept.
unfoldable pub kept : ℕ → List Certificate → List ℕ
kept now [] = []
kept now (c ∷ certs) =
    let rest = kept now certs in if ltb now (c.not_after + day) then c.raw ++ rest else rest

-- Whether the loop of `prune` leaves a certificate out.
unfoldable pub reload : ℕ → List Certificate → Bool
reload now [] = false
reload now (c ∷ certs) =
    let rest = reload now certs in if ltb now (c.not_after + day) then rest else true

module _ {σ : Type 0} (c : Config σ) where
  abbrev pub on_world : {A : Type 0} → Action σ A → Action (Manager σ) A
  on_world m w = let r = m w.world in (r.0, record w { world = r.1 })

  unfoldable pub store_ca_cert : Certificate → List ℕ → Action σ Unit
  store_ca_cert ca_cert upstream = c.ds.append_bundle (record {
    trust_domain = c.trust_domain;
    ca_certs = if c.upstream_bundle then ca_cert.raw ++ upstream else ca_cert.raw;
  })

  abbrev pub set_next : Certificate → Action (Manager σ) Unit
  set_next cert w = (ok tt, record w { next_ca_cert = some cert })

  abbrev pub set_active : Certificate → Action (Manager σ) Unit
  set_active cert w = (ok tt, record w { ca_cert = some cert; next_ca_cert = none })

  unfoldable pub prepare_next_ca : Action (Manager σ) Unit
  prepare_next_ca = do
    csr ← or_errorf "generate csr" (on_world c.generate_csr)
    sign_res ← or_errorf "submit csr to upstream ca" (on_world (c.submit_csr csr))
    cert ← or_errorf "invalid cert from upstream" (lift (c.parse_certificate sign_res.cert))
    or_errorf "store new ca cert" (on_world (store_ca_cert cert sign_res.upstream_trust_bundle))
    set_next cert

  -- `activateNextCA`, given the field nextCACert.
  abbrev pub activate : Option Certificate → Action (Manager σ) Unit
  activate none = fail "next ca cert not prepared"
  activate (some cert) = do
    or_errorf "load new ca cert" (on_world (c.load_certificate cert.raw))
    set_active cert

  unfoldable pub activate_next_ca : Action (Manager σ) Unit
  activate_next_ca w = activate w.next_ca_cert w

  -- `caRotate`, given the field caCert.
  abbrev pub rotate : ℕ → Option Certificate → Action (Manager σ) Unit
  rotate now none w = fail "ca manager not initialized; no ca cert present" w
  rotate now (some cert) w =
      if less_left now cert (lifetime cert / 2) && not (is_some w.next_ca_cert)
      then prepare_next_ca w
      else if less_left now cert (lifetime cert / 6)
      then activate_next_ca w
      else return tt w

  unfoldable pub ca_rotate : ℕ → Action (Manager σ) Unit
  ca_rotate now w = rotate now w.ca_cert w

  -- `Start`, up to its loops.
  unfoldable pub start : Action (Manager σ) Unit
  start = do
    or_errorf "create ca certificate" prepare_next_ca
    or_errorf "activate ca certificate" activate_next_ca

  unfoldable pub prune : ℕ → Action σ Unit
  prune now = do
    old_bundle ← or_errorf "fetch bundle" (c.ds.fetch_bundle c.trust_domain)
    certs ←
        or_errorf "parse bundle from datastore" (lift (c.parse_certificates old_bundle.ca_certs))
    let ca_certs = kept now certs
    if length ca_certs == 0
        then fail "would prune all certificates"
        else if reload now certs
        then or_errorf "write new bundle" (
            c.ds.update_bundle
              (record { trust_domain = old_bundle.trust_domain; ca_certs = ca_certs }))
        else return tt
