-- ===== src/Api/Tests/Streaming.antt =====
-- Runs of the hub: two streams of one wallet and one of another, of which one is closed.
use cancel_chain.Common.{◌≤◌, ◌≡◌, ◌⊎◌, refl, some, [], ◌∷◌, arith, length, throw}
use cancel_chain.Common.Dict.{get, set, delete}
use cancel_chain.Api.Hub.{
  Hub, empty_hub, subscribe, unsubscribe, leave, add, resync, allowance_notice, send_all, deliver,
  StreamReaders, handle,
}
use cancel_chain.Api.Hub.Reached.{Reached, start, next, opens, ends}
use cancel_chain.Api.Hub.Delivers.{streams_of, deliver-streams, handle-missed}

abbrev one_open : Hub
one_open = (subscribe 3 empty_hub "wallet" 1).0

abbrev two_open : Hub
two_open = (subscribe 3 one_open "wallet" 2).0

abbrev three_open : Hub
three_open = (subscribe 3 two_open "other" 3).0

abbrev one_closed : Hub
one_closed = unsubscribe three_open 1

remaining : streams_of one_closed "wallet" ≡ 2 ∷ []
unfolding subscribe unsubscribe leave add get set delete
remaining = refl

two_open-Reached : Reached 3 two_open
unfolding subscribe add get set
two_open-Reached =
    next one_open two_open (next empty_hub one_open start (opens empty_hub "wallet" 1 tt))
      (opens one_open "wallet" 2 ((λ e. omega (arith, e)), tt))

one_closed-Reached : Reached 3 one_closed
unfolding subscribe add get set
one_closed-Reached =
    next three_open one_closed
      (next two_open three_open two_open-Reached
        (opens two_open "other" 3 ((λ e. omega (arith, e)), ((λ e. omega (arith, e)), tt))))
      (ends three_open 1)

deliver-streams_example :
    (deliver one_closed "wallet" resync ≡ send_all (streams_of one_closed "wallet") resync)
    × (one_closed.count ≡ length one_closed.live)
    × (one_closed.count ≤ 3)
deliver-streams_example = deliver-streams 3 one_closed "wallet" resync one_closed-Reached

abbrev unreadable : StreamReaders
unreadable = record { allowance = λ pda. throw tt; event = λ id. throw tt }

handle-missed_example :
    (handle unreadable two_open one_closed (some (allowance_notice "permission" "wallet"))
      ≡ send_all (streams_of one_closed "wallet") resync)
    ⊎ ((streams_of two_open "wallet" ≡ [])
        × (handle unreadable two_open one_closed (some (allowance_notice "permission" "wallet"))
            ≡ []))
handle-missed_example =
    handle-missed unreadable 3 two_open one_closed "wallet" (allowance_notice "permission" "wallet")
      two_open-Reached one_closed-Reached (refl, tt, refl)
