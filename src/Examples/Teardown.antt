-- ===== src/Examples/Teardown.antt =====
-- Teardown over the mock: cluster "a" has the first and the last of three servers.
use pandion.Prelude.{◌≡◌, refl, [], none, true, arith}
use pandion.Prelude.Decimal.{decimal}
use pandion.Prelude.Dict.{values}
use pandion.Errors.{ok}
use pandion.Orchestrator.Down.{down}
use pandion.Orchestrator.Down.Verified.{down-IsGone, IsGone}
use pandion.Orchestrator.Down.Others.{down-keeps_others}
use pandion.Orchestrator.Down.Contract.{tagged}
use pandion.Mock.{mock}
use pandion.Mock.Valid.{IsValid, mock-Contract}
use pandion.Mock.Converges.{down-mock}
use pandion.Prelude.{List, All, ◌∷◌}
use pandion.Orchestrator.Reap.{ReapCandidate, reap, reap_loop}
use pandion.Orchestrator.Reap.Gone.{Empty, reap-gone}
use pandion.Examples.{whole_float, two_clusters, world}

two_clusters-IsValid : IsValid (two_clusters true 1)
unfolding decimal
two_clusters-IsValid = (
  (refl, (1, omega arith, refl)),
  ((refl, (2, omega arith, refl)), ((refl, (3, omega arith, refl)), tt)),
)

torn_down : (down (mock whole_float) 1 none "a" (world (two_clusters true 1) [])).0 ≡ ok tt
torn_down =
    down-mock whole_float 1 "a" (world (two_clusters true 1) []) two_clusters-IsValid (omega arith)
      refl refl

down-mock_example : (down (mock whole_float) 1 none "a" (world (two_clusters true 1) [])).0 ≡ ok tt
down-mock_example =
    down-mock whole_float 1 "a" (world (two_clusters true 1) []) two_clusters-IsValid (omega arith)
      refl refl

down-IsGone_example :
    IsGone
      (mock whole_float)
      (mock-Contract whole_float)
      1
      none
      "a"
      (down (mock whole_float) 1 none "a" (world (two_clusters true 1) [])).1
down-IsGone_example =
    down-IsGone (mock whole_float) (mock-Contract whole_float) 1 none "a"
      (world (two_clusters true 1) []) tt two_clusters-IsValid torn_down

down-keeps_others_example :
    tagged "b" (
      values
        (down (mock whole_float) 1 none "a" (world (two_clusters true 9) [])).1.net.cloud.servers)
    ≡ tagged "b" (values (two_clusters true 9).servers)
down-keeps_others_example =
    down-keeps_others (mock whole_float) (mock-Contract whole_float) 1 none "a" "b"
      (world (two_clusters true 9) []) tt two_clusters-IsValid ((refl, tt), ((refl, tt), tt))

abbrev reapable : List ReapCandidate
reapable = record { cluster_id = "a"; servers = 2; oldest_age = 95 } ∷ []

reaped : (reap (mock whole_float) 1 none reapable (world (two_clusters true 1) [])).0.1 ≡ none
unfolding reap reap_loop
reaped = rw torn_down

reap-gone_example :
    ((reap (mock whole_float) 1 none reapable (world (two_clusters true 1) [])).0.0 ≡ 1)
    × All
        (λ c.
          Empty
            (mock whole_float)
            (mock-Contract whole_float)
            1
            none
            c.cluster_id
            (reap (mock whole_float) 1 none reapable (world (two_clusters true 1) [])).1)
        reapable
reap-gone_example =
    reap-gone (mock whole_float) (mock-Contract whole_float) 1 none reapable
      (world (two_clusters true 1) []) (tt, tt) two_clusters-IsValid reaped
