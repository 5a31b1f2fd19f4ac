-- ===== src/Tests/Discovery.antt =====
-- Three slaves, of which the second refuses.
use grandma_scheduling_servi.Prelude.{◌≡◌, refl, true, List, [], ◌∷◌, done, ok}
use grandma_scheduling_servi.Prelude.Text.{Bytes, codes}
use grandma_scheduling_servi.Cluster.Handshake.{success, refused}
use grandma_scheduling_servi.Cluster.Discovery.{Dialled, connected, new_node, discover_slaves}

abbrev dial : Bytes → Dialled
dial [] = connected (done refused) true
dial (c ∷ address) = connected (done success) true

abbrev addresses : List Bytes
addresses = codes "a" ∷ [] ∷ codes "c" ∷ []

discover_slaves-two :
    discover_slaves dial addresses
    ≡ done (ok (new_node 0 (codes "a") ∷ new_node 1 (codes "c") ∷ []))
unfolding discover_slaves
discover_slaves-two = refl
