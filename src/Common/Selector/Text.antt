-- ===== src/Common/Selector/Text.antt =====
-- `String` of pkg/common/selector/set.go. The text lists the selectors in the order of one iteration
-- over the map, which is the order of the list given here.
use spiffe_spire.Prelude.{String, ◌<>◌, List, [], ◌∷◌, ◌≡◌, refl}
use spiffe_spire.Common.Selector.{SelectorPtr}

-- The loop after its first round: each further selector is set off by a blank.
write_rest : List SelectorPtr → String
write_rest [] = ""
write_rest (p ∷ rest) = " " <> (p.target.type <> (":" <> (p.target.value <> write_rest rest)))

write_selectors : List SelectorPtr → String
write_selectors [] = ""
write_selectors (p ∷ rest) = p.target.type <> (":" <> (p.target.value <> write_rest rest))

-- `iteration` is the order in which the loop meets the selectors of the set.
unfoldable pub to_string : List SelectorPtr → String
unfolding write_selectors write_rest
to_string iteration = "[" <> (write_selectors iteration <> "]")

to_string_two :
    to_string (
      record { addr = 0; target = record { type = "unix"; value = "uid:1" } }
      ∷ record { addr = 1; target = record { type = "k8s"; value = "ns" } }
      ∷ [])
    ≡ "[unix:uid:1 k8s:ns]"
unfolding to_string
to_string_two = refl
