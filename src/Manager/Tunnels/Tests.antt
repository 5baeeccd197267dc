-- ===== src/Manager/Tunnels/Tests.antt =====
-- Two connections and three requests: the first connection is lent at once, the second goes to the
-- second request, which waits for it, and the third gives up.
use oumigo.Prelude.{◌≡◌, refl, false, List, [], ◌∷◌}
use oumigo.Manager.Tunnels.{TunnelStep, adds, removes, acquires, finishes}
use oumigo.Manager.Tunnels.Lending.{course, begin}

abbrev steps : List TunnelStep
steps =
    adds 1
    ∷ acquires (λ k. false) 10
    ∷ acquires (λ k. false) 11
    ∷ acquires (λ k. false) 12
    ∷ adds 2
    ∷ finishes 12
    ∷ removes 1
    ∷ []

lent_test : (course begin steps).lent ≡ 2 ∷ 1 ∷ []
unfolding course oumigo.Manager.Tunnels.Lending.advance oumigo.Manager.Tunnels.hand
    oumigo.Manager.Tunnels.acquire oumigo.Manager.Tunnels.acquire_from
    oumigo.Manager.Tunnels.pop_open oumigo.Manager.Tunnels.add oumigo.Manager.Tunnels.no_tunnels
lent_test = refl
