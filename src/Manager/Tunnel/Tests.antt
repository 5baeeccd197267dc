-- ===== src/Manager/Tunnel/Tests.antt =====
-- Two messages, read three bytes at a time.
use oumigo.Prelude.{◌≡◌, refl, true, List, [], ◌∷◌, ◌++◌}
use oumigo.Manager.Tunnel.{ConnStep, receives, ends, closes, reads}
use oumigo.Manager.Tunnel.Stream.{course, begin, concat, course-Stream}

abbrev steps : List ConnStep
steps =
    receives (1 ∷ 2 ∷ 3 ∷ 4 ∷ [])
    ∷ reads 2
    ∷ receives (5 ∷ [])
    ∷ ends
    ∷ reads 2
    ∷ reads 2
    ∷ reads 2
    ∷ closes
    ∷ []

course_test : (course (begin "w1") steps).taken ≡ 1 ∷ 2 ∷ 3 ∷ 4 ∷ 5 ∷ []
unfolding course oumigo.Manager.Tunnel.read oumigo.Manager.Tunnel.read_from begin
    oumigo.Manager.Tunnel.pump_data oumigo.Manager.Tunnel.conn oumigo.Manager.Tunnel.read_queued
    oumigo.Manager.Tunnel.read_pending oumigo.Manager.Tunnel.split_at oumigo.Manager.Tunnel.pump_end
course_test = refl

end_test : (course (begin "w1") steps).at_end ≡ true
unfolding course oumigo.Manager.Tunnel.read oumigo.Manager.Tunnel.read_from begin
    oumigo.Manager.Tunnel.pump_data oumigo.Manager.Tunnel.conn oumigo.Manager.Tunnel.read_queued
    oumigo.Manager.Tunnel.read_pending oumigo.Manager.Tunnel.split_at oumigo.Manager.Tunnel.pump_end
end_test = refl

course-Stream_example :
    let x = course (begin "w1") steps in
    (x.taken ++ (x.connection.pending ++ concat x.connection.incoming) ≡ x.received)
    × (x.at_end ≡ true → (x.taken ≡ x.received) × x.ended ≡ true)
course-Stream_example = course-Stream "w1" steps
