-- ===== src/Tests/Sockets.antt =====
-- Live connections.
use grandma_scheduling_servi.Prelude.{
  ℕ, ◌==◌, ◌≡◌, ◌↔◌, refl, Bool, true, false, [], ◌∷◌, none, some, done, ok,
}
use grandma_scheduling_servi.Prelude.Text.{codes, bytes_eq}
use grandma_scheduling_servi.Ws.{Connection, ConnMap, join, leave, send}
use grandma_scheduling_servi.Ws.Sockets.{text, Sockets, send_message}
use grandma_scheduling_servi.Ws.Sockets.Delivery.{
  AreDistinct, Beat, chosen, reached, send_message-ok_iff,
}
use grandma_scheduling_servi.Ws.Live.{IsLive, calls, joins, leaves, calls-IsLive}

abbrev phone : Connection
phone = record { id = codes "ann"; key = codes "phone"; pointer = 1 }

abbrev desk : Connection
desk = record { id = codes "ann"; key = codes "desk"; pointer = 2 }

abbrev nobody : ConnMap
nobody = λ id. none

send-phone :
    send (codes "ann") (codes "phone") (join desk (join phone nobody).1).1 ≡ some (phone ∷ [])
unfolding send join bytes_eq
send-phone = refl

send-all : send (codes "ann") [] (join desk (join phone nobody).1).1 ≡ some (phone ∷ desk ∷ [])
unfolding send join bytes_eq
send-all = refl

leave-both : (leave desk (leave phone (join desk (join phone nobody).1).1).1).1 (codes "ann") ≡ none
unfolding leave join bytes_eq
leave-both = refl

calls-IsLive_example : IsLive (calls nobody (joins phone ∷ joins desk ∷ leaves phone ∷ []))
calls-IsLive_example = calls-IsLive nobody (joins phone ∷ joins desk ∷ leaves phone ∷ []) (λ id. tt)

-- The message is written to the phone, and the write to the desk fails.
abbrev fresh_sockets : Sockets
fresh_sockets = λ p. record { beats = true; closed = false; written = [] }

abbrev only_phone : ℕ → Bool
only_phone = λ p. p == 1

selected : AreDistinct (chosen [] (phone ∷ desk ∷ []))
selected = (refl, (refl, tt))

both_live : (join desk (join phone nobody).1).1 (codes "ann") ≡ some (phone ∷ desk ∷ [])
unfolding join bytes_eq
both_live = refl

-- The phone has it behind what it had, and the desk has ended.
abbrev behind : Sockets
behind = reached only_phone (codes "hi") (phone ∷ desk ∷ []) fresh_sockets

behind-phone : behind 1 ≡ record { beats = true; closed = false; written = text (codes "hi") ∷ [] }
behind-phone = refl

behind-desk : behind 2 ≡ record { beats = false; closed = true; written = [] }
behind-desk = refl

send_message-ok_iff_example :
    (send_message only_phone
        (codes "ann")
        []
        (codes "hi")
        (join desk (join phone nobody).1).1
        fresh_sockets
      ≡ done (ok behind))
    ↔ (Beat fresh_sockets (phone ∷ desk ∷ []) × (behind ≡ behind))
send_message-ok_iff_example =
    send_message-ok_iff only_phone (codes "hi") (codes "ann") [] (join desk (join phone nobody).1).1
      (phone ∷ desk ∷ []) fresh_sockets behind both_live selected
