-- ===== src/Tests/Authorities.antt =====
-- Witnesses and tests on the CA manager.
use spiffe_spire.Prelude.{ℕ, ◌≡◌, ◌⊎◌, refl, false, none, some, List, [], ◌∷◌, Memᴰ}
use spiffe_spire.Prelude.Action.{ok, failed}
use spiffe_spire.Common.Messages.{Certificate}
use spiffe_spire.Server.DataStore.{Bundle}
use spiffe_spire.Server.CaManager.{Config, Manager, ca_rotate, prune, kept}
use spiffe_spire.Server.CaManager.Rotation.{Rotated, ca_rotate_lem}
use spiffe_spire.Server.CaManager.Pruning.{IsRecent, recent, all_raw, Written, prune_lem}
use spiffe_spire.Tests.Stores.{Memory, memory, blank}

abbrev old_cert : Certificate
old_cert = record { raw = 1 ∷ 2 ∷ []; not_before = 0; not_after = 60 }

abbrev new_cert : Certificate
new_cert = record { raw = 3 ∷ 4 ∷ []; not_before = 50; not_after = 90000000000000 }

abbrev config : Config Memory
config = record {
  generate_csr = λ s. (ok (9 ∷ []), s);
  load_certificate = λ raw s. (ok tt, s);
  submit_csr = λ csr s. (ok (record { cert = 3 ∷ 4 ∷ []; upstream_trust_bundle = [] }), s);
  ds = memory;
  parse_certificate = λ bytes. ok new_cert;
  parse_certificates = λ bytes. ok (old_cert ∷ new_cert ∷ []);
  trust_domain = "spiffe://example.org";
  upstream_bundle = false;
}

abbrev active : Manager Memory
active = record { ca_cert = some old_cert; next_ca_cert = none; world = blank }

ca_rotate_lem_example : Rotated config 45 old_cert active (ca_rotate config 45 active).1
ca_rotate_lem_example = ca_rotate_lem config 45 old_cert active refl

abbrev certs : List Certificate
certs = old_cert ∷ new_cert ∷ []

-- More than a day after the old certificate has expired.
abbrev late : ℕ
late = 90000000000000

abbrev fetched : Bundle
fetched = record { trust_domain = "spiffe://example.org"; ca_certs = [] }

prune_lem_example :
    ((prune config late blank ≡ (failed "would prune all certificates", blank))
      × (all_raw (recent late certs) ≡ []))
    ⊎ (((prune config late blank ≡ (ok tt, blank))
          × ((cert : Certificate) → Memᴰ cert certs → IsRecent late cert))
        ⊎ Written config late blank blank fetched certs refl refl (prune config late blank).1)
prune_lem_example = prune_lem config late blank blank fetched certs refl refl

abbrev much_later : ℕ
much_later = 900000000000000

nothing_left : kept much_later certs ≡ []
unfolding kept
nothing_left = refl
