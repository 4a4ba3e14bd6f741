-- ===== src/Server/Node/Entitlement.antt =====
-- For whom the node API signs.

use mathlib.Core.Option.{some-injective}
use spiffe_spire.Prelude.{
  ℕ, ◌≡◌, ◌⊎◌, refl, sym, subst, ap, ◌∙◌, inl, inr, String, true, some, List, [], ◌∷◌, Memᴰ, ◌==◌,
  nat_comparable, string_comparable, beq→eq, Bool-cases, Option-cases,
}
use spiffe_spire.Prelude.Action.{ok, Result-cases, Call-cases, answer-injective}
use spiffe_spire.Prelude.GoMap.{GoMap, lookup, insert, has, lookup-insert}
use spiffe_spire.Common.Messages.{RegistrationEntry}
use spiffe_spire.Server.DataStore.{AttestedNode}
use spiffe_spire.Server.Node.{
  Handler, Peer, Svid, entries_map, get_spiffe_id_from_csr, sign_own, is_own, sign_for, sign_all,
  sign_csrs,
}

-- Every entry of the map stands under its SPIFFE ID and comes from the list.
abbrev FromList : List RegistrationEntry → GoMap String RegistrationEntry → Type 0
FromList all m =
    (id : String) (e : RegistrationEntry) → lookup id m ≡ some e → Memᴰ e all × (e.spiffe_id ≡ id)

nothing_from : (all : List RegistrationEntry) → FromList all []
unfolding lookup
nothing_from all id e found = cc found

nobody : (id : String) → ¬ (has {V = Svid} id [] ≡ true)
unfolding lookup
nobody id e = cc e

entries_map-FromList :
    (all es : List RegistrationEntry) (m : GoMap String RegistrationEntry)
    → ((e : RegistrationEntry) → Memᴰ e es → Memᴰ e all)
    → FromList all m
    → FromList all (entries_map es m)
unfolding entries_map
entries_map-FromList all [] m sub from = from
entries_map-FromList all (e ∷ es) m sub from =
    entries_map-FromList all es (insert e.spiffe_id e m) (λ x q. sub x (Memᴰ.tail q))
      λ id x found.
        let eq = lookup-insert e.spiffe_id id e m in
        elim (Bool-cases (e.spiffe_id == id)) [
          | inl hit ↦
              subst (λ y. Memᴰ y all × (y.spiffe_id ≡ id))
                (some-injective _ _ (sym (rw hit at eq) ∙ found))
                (sub e (Memᴰ.head refl), beq→eq e.spiffe_id id hit)
          | inr miss ↦ from id x (sym (rw miss at eq) ∙ found)
        ]

module _ {σ : Type 0} (h : Handler σ) (peer : Peer) (reg_entries : List RegistrationEntry) where
  -- The SPIFFE ID is the caller's own, an agent's, and the store has answered with an attested node
  -- of this ID whose serial number is that of the caller's certificate.
  pub record IsAgent (id : String) : Type 0 where
    pub caller : is_own h peer id ≡ true
    pub before : σ
    pub after : σ
    pub node : AttestedNode
    pub attested : h.ds.fetch_attested_node_entry id before ≡ (ok (some node), after)
    pub serial : (node.cert_serial_number == peer.serial_number) ≡ true

  -- One of the registration entries has the SPIFFE ID.
  pub record IsRegisteredId (id : String) : Type 0 where
    pub entry : RegistrationEntry
    pub there : Memᴰ entry reg_entries
    pub same_id : entry.spiffe_id ≡ id

  abbrev pub Entitled : String → Type 0
  Entitled id = IsAgent id ⊎ IsRegisteredId id

  sign_own-IsAgent :
      (id : String) (csr : List ℕ) (s s' : σ) (svid : Svid)
      → is_own h peer id ≡ true
      → sign_own h peer id csr s ≡ (ok svid, s')
      → IsAgent id
  unfolding sign_own
  sign_own-IsAgent id csr s s' svid own e =
      elim (Call-cases (h.ds.fetch_attested_node_entry id s)) [
        | inr (_, t, f) ↦ cc (rw f at e)
        | inl (o, t, f) ↦ elim (Option-cases o) [
          | inl missing ↦ cc (rw (f, missing) at e)
          | inr (node, there) ↦ elim (Bool-cases (node.cert_serial_number == peer.serial_number)) [
            | inr differs ↦ cc (rw (f, there, differs) at e)
            | inl same ↦ record {
              caller = own;
              before = s;
              after = t;
              node = node;
              attested = f ∙ ap (λ x. (ok x, t)) there;
              serial = same;
            }
          ]
        ]
      ]

  sign_for-Entitled :
      (m : GoMap String RegistrationEntry)
      → FromList reg_entries m
      → (id : String) (csr : List ℕ) (s s' : σ) (svid : Svid)
      → sign_for h peer m id csr s ≡ (ok svid, s')
      → Entitled id
  unfolding sign_for
  sign_for-Entitled m from id csr s s' svid e = elim (Bool-cases (is_own h peer id)) [
    | inl own ↦ inl (sign_own-IsAgent id csr s s' svid own (rw own at e))
    | inr others ↦ elim (Option-cases (lookup id m)) [
      | inl missing ↦ cc (rw (others, missing) at e)
      | inr (entry, found) ↦ inr (record {
        entry = entry;
        there = (from id entry found).0;
        same_id = (from id entry found).1;
      })
    ]
  ]

  abbrev AllEntitled : GoMap String Svid → Type 0
  AllEntitled svids = (id : String) → has id svids ≡ true → Entitled id

  insert-AllEntitled :
      (id : String) (svid : Svid) (svids : GoMap String Svid)
      → Entitled id
      → AllEntitled svids
      → AllEntitled (insert id svid svids)
  insert-AllEntitled id svid svids mine theirs other there =
      let eq = lookup-insert id other svid svids in
      elim (Bool-cases (id == other)) [
        | inl hit ↦ subst Entitled (beq→eq id other hit) mine
        | inr miss ↦ theirs other (rw (rw miss at eq) at there)
      ]

  sign_all-AllEntitled :
      (m : GoMap String RegistrationEntry)
      → FromList reg_entries m
      → (csrs : List (List ℕ)) (svids svids' : GoMap String Svid) (s s' : σ) → AllEntitled svids
      → sign_all h peer m csrs svids s ≡ (ok svids', s')
      → AllEntitled svids'
  unfolding sign_all
  sign_all-AllEntitled m from [] svids svids' s s' all e =
      subst AllEntitled (answer-injective _ svids' _ s' e).0 all
  sign_all-AllEntitled m from (csr ∷ csrs) svids svids' s s' all e =
      elim (Result-cases (get_spiffe_id_from_csr h csr)) [
        | inr (_, f) ↦ cc (rw f at e)
        | inl (id, f) ↦ elim (Call-cases (sign_for h peer m id csr s)) [
          | inr (_, t, g) ↦ cc (rw (f, g) at e)
          | inl (svid, t, g) ↦
              sign_all-AllEntitled m from csrs (insert id svid svids) svids' t s'
                (insert-AllEntitled id svid svids (sign_for-Entitled m from id csr s t svid g) all)
                (rw (f, g) at e)
        ]
      ]

  -- Every SPIFFE ID for which a call of `signCSRs` that returns hands out an SVID is one that the
  -- caller is entitled to: its own, if it is an agent whose certificate has the serial number that
  -- the store knows, or that of one of the registration entries.
  pub sign_csrs-Entitled :
      (csrs : List (List ℕ)) (s s' : σ) (svids : GoMap String Svid) (id : String)
      → sign_csrs h peer csrs reg_entries s ≡ (ok svids, s')
      → has id svids ≡ true
      → Entitled id
  unfolding sign_csrs
  sign_csrs-Entitled csrs s s' svids id e there =
      sign_all-AllEntitled (entries_map reg_entries [])
        (entries_map-FromList reg_entries reg_entries [] (λ x q. q) (nothing_from reg_entries)) csrs
        [] svids s s' (λ other q. absurd (nobody other q)) e id there
