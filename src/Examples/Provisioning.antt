-- ===== src/Examples/Provisioning.antt =====
-- Provisioning over the mock.
use pandion.Prelude.{◌≡◌, refl, [], ◌∷◌, none, ◌≤◌, ◌⊎◌}
use pandion.Prelude.Dict.{lookup, insert, remove}
use pandion.Prelude.Decimal.{decimal}
use pandion.Errors.{is_transient_provision}
use pandion.Provider.{no_gpu, wanted}
use pandion.State.{Cluster, Outcome, Phase, stamp, save}
use pandion.Orchestrator.Retry.{create_with_retry}
use pandion.Orchestrator.Retry.Laws.{create_with_retry_calls, counting}
use pandion.Orchestrator.Up.{NodeSpec, up_spec, server_spec, one_node}
use pandion.Orchestrator.{journal, pause}
use pandion.Orchestrator.Up.Journal.{up_spec-IsJournaled, up_spec-IsUp, IsJournaled, IsUp}
use pandion.Mock.{Mock, mock, new, create_server, realize}
use pandion.Examples.{whole_float, world}

abbrev broker : NodeSpec
broker = record {
  name = "broker";
  user_data = "";
  login_pub_key = "";
  type = "";
  image = "";
  region_pref = [];
  gpu = no_gpu;
}

-- The mock's second boot of the broker succeeds.
abbrev flaky : Mock
flaky = record new { transient_boot_for = ("broker", 1) ∷ [] }

create_with_retry_calls_example :
    (create_with_retry
      (counting (mock whole_float))
      5
      none
      (server_spec "a" broker "" "")
      (record { cloud = (flaky, 0); now = 0 })).1.cloud.1
    ≤ 3
create_with_retry_calls_example =
    create_with_retry_calls (mock whole_float) 5 none (server_spec "a" broker "" "")
      (record { cloud = (flaky, 0); now = 0 })

up_spec-IsJournaled_example :
    ((up_spec
        (mock whole_float)
        5
        none
        "a"
        broker
        ""
        ""
        (world flaky (Outcome.works ∷ Outcome.halfway ∷ []))).1.net
      ≡ (world flaky []).net)
    ⊎ IsJournaled "mock" "a" broker
        (up_spec
          (mock whole_float)
          5
          none
          "a"
          broker
          ""
          ""
          (world flaky (Outcome.works ∷ Outcome.halfway ∷ []))).1
up_spec-IsJournaled_example =
    up_spec-IsJournaled (mock whole_float) 5 none "a" broker "" ""
      (world flaky (Outcome.works ∷ Outcome.halfway ∷ []))

-- After the second boot the broker runs on the first server.
abbrev up_broker : Cluster
up_broker = stamp 6000105 (one_node "mock" "a" broker "mock-1" "10.0.0.1" Phase.running)

up_spec-IsUp_example :
    IsUp
      (mock whole_float)
      "a"
      broker
      (create_with_retry
        (mock whole_float)
        5
        none
        (server_spec "a" broker "" "")
        (world flaky []).net).0
      (create_with_retry
        (mock whole_float)
        5
        none
        (server_spec "a" broker "" "")
        (world flaky []).net).1
      up_broker
      (up_spec (mock whole_float) 5 none "a" broker "" "" (world flaky [])).1
unfolding up_spec create_server lookup insert remove wanted realize journal save decimal pause
    is_transient_provision create_with_retry
up_spec-IsUp_example =
    up_spec-IsUp (mock whole_float) 5 none "a" broker up_broker "" "" (world flaky []) refl
