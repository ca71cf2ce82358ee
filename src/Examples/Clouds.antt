-- ===== src/Examples/Clouds.antt =====
-- The clients' loops, names and requests on small inputs.
use pandion.Prelude.{
  ℕ, ◌+◌, ◌≤◌, ◌≡◌, refl, String, true, false, List, [], ◌∷◌, none, some, arith, str_eq,
  if◌then◌else◌,
}
use pandion.Errors.{ok, err, reported, os_failure}
use pandion.Prelude.Integer.{pos}
use pandion.Provider.{Net, ServerSpec}
use pandion.Prelude.Text.{equal_fold}
use pandion.Client.{Call, ask}
use pandion.Client.Loops.{search}
use pandion.Client.Loops.Ends.{IsOver}
use pandion.Client.Loops.Searched.{Searched, search-Searched}
use pandion.Client.Waits.{hetzner_wait-ends}
use pandion.Client.Hetzner.Create.{wait_running as hetzner_wait}
use pandion.Client.Lambda
use pandion.Client.Lambda.Http.{request}
use pandion.Client.Lambda.Bounded.{request-sent_le}
use pandion.Client.Lambda.Create.{wait_running, check_running}
use pandion.Client.Lambda.Waits.{wait_running-never}
use pandion.Client.Names.{size, server_name, cluster_tag, recover_cluster_id, sanitize, tag_all}
use pandion.Client.Names.Recovered.{IsDnsName, recover_cluster_id-cluster_tag}
use pandion.Client.Names.Bounds.{server_name-IsDnsName}
use pandion.Client.Unreached.{destroy_server-unreached}
use pandion.Select.Clouds.Digitalocean.{SizeInfo}
use pandion.Client.Scaleway
use pandion.Client.Scaleway.Teardown.{destroy_server}
use pandion.Examples.{whole}
use pandion.Examples.Hetzner.{cloud, in_nbg1, nothing_there}

hetzner_wait-ends_example : IsOver (hetzner_wait whole cloud (some 9) (pos 7) nothing_there)
hetzner_wait-ends_example =
    hetzner_wait-ends (some 9) whole cloud (pos 7) nothing_there (λ n. omega arith)

-- Two places, of which the first is full, in a cloud that counts the requests.
abbrev create_at : String → Call ℕ ℕ
create_at place n = (
  if str_eq place "nbg1" then err (reported "unavailable") else ok 4,
  record n { cloud = n.cloud + 1 },
)

search-Searched_example :
    Searched create_at
      (λ e. true)
      (λ p e. e)
      (λ p a n. (ok a, n))
      "nowhere"
      ("nbg1" ∷ "fsn1" ∷ [])
      (record { cloud = 0; now = 0 })
      (search create_at
        (λ e. true)
        (λ p e. e)
        (λ p a n. (ok a, n))
        "nowhere"
        ("nbg1" ∷ "fsn1" ∷ [])
        (record { cloud = 0; now = 0 }))
search-Searched_example =
    search-Searched create_at (λ e. true) (λ p e. e) (λ p a n. (ok a, n)) "nowhere"
      ("nbg1" ∷ "fsn1" ∷ []) (record { cloud = 0; now = 0 })

-- A service that counts the requests, and whose instance is still booting.
abbrev booting : Lambda.Answer
booting = record {
  types = [];
  keys = [];
  instances = [];
  instance = record {
    id = "i";
    name = "pandion-a--n";
    ip = "";
    status = "booting";
    region = "us-east-1";
    instance_type = record {
      name = "gpu_1x_a10";
      description = "";
      price_cents_per_hr = 75;
      gpus = 1;
    };
  };
  instance_ids = [];
  rules = [];
}

abbrev service : ℕ → Lambda.Api ℕ
service status = record {
  send = λ ctx req n. (
    ok (record { status = status; retry_after = ""; text = ""; error = none; answer = ok booting }),
    record n { cloud = n.cloud + 1 },
  );
  random = λ k n. (ok 0, n);
  digest = λ s. s;
}

abbrev unused : Net (Lambda.Client ℕ)
unused = record { cloud = record { kept = none; remote = 0 }; now = 0 }

request-sent_le_example :
    (request (service 503) Lambda.standard none Lambda.get_keys unused).1.cloud.remote ≤ 0 + (5 + 1)
request-sent_le_example =
    request-sent_le (service 503) Lambda.standard none (λ c. c) Lambda.get_keys unused
      ((λ req n. refl), (λ k n. refl))

-- Without a gap between the requests.
abbrev unhurried : Lambda.Config
unhurried = record Lambda.standard { min_gap = 0 }

never : (m : Net (Lambda.Client ℕ)) → (check_running (service 200) unhurried none "i" m).0 ≡ ok none
unfolding check_running request ask equal_fold
never m = refl

wait_running-never_example : (wait_running (service 200) unhurried none 9 "i" unused).0 ≡ ok none
wait_running-never_example = wait_running-never (service 200) unhurried 9 "i" unused never

recover_cluster_id-cluster_tag_example :
    (recover_cluster_id (tag_all ∷ cluster_tag "My.App" ∷ []) ≡ sanitize "My.App")
    × IsDnsName (sanitize "My.App")
    × (cluster_tag (recover_cluster_id (tag_all ∷ cluster_tag "My.App" ∷ []))
        ≡ cluster_tag "My.App")
recover_cluster_id-cluster_tag_example = recover_cluster_id-cluster_tag "My.App"

server_name-IsDnsName_example :
    (size (server_name 63 "My.App" "web") ≤ 63) × IsDnsName (server_name 63 "My.App" "web")
server_name-IsDnsName_example = server_name-IsDnsName 63 "My.App" "web"

abbrev any_type : ServerSpec
any_type = record in_nbg1 { type = "" }

abbrev do_sizes : List (SizeInfo ℕ)
do_sizes =
    record {
      slug = "s-2vcpu-4gb";
      vcpus = 2;
      mem_mb = 4096;
      price_hourly = 36;
      regions = "nyc1" ∷ [];
      available = true;
      gpu = false;
      gpu_model = "";
      gpu_count = 0;
      gpu_vram = 0;
    }
    ∷ []

abbrev down_call : {A : Type 0} → Call ℕ A
down_call n = (err os_failure, record n { cloud = n.cloud + 1 })

-- A cloud whose every call fails.
abbrev down_cloud : Scaleway.Api ℕ ℕ
down_cloud = record {
  message = λ e. "";
  is_resource_not_found = λ e. false;
  status = λ e. some 503;
  create = λ r. down_call;
  set_user_data = λ z id k v. down_call;
  action_and_wait = λ z id a t. down_call;
  get = λ z id. down_call;
  delete_volume = λ z id. down_call;
  list_servers = λ z tag p. down_call;
  list_types = λ z p. down_call;
  list_keys = λ ctx project p. down_call;
  create_key = λ ctx name key project. down_call;
  delete_key = λ ctx id. down_call;
}

destroy_server-unreached_example :
    destroy_server down_cloud 9 Scaleway.zones "11111111" (record { cloud = 0; now = 0 })
    ≡ (ok tt, record { cloud = 3; now = 0 })
destroy_server-unreached_example =
    destroy_server-unreached down_cloud 9 Scaleway.zones "11111111" (record { cloud = 0; now = 0 })
      (record { cloud = 3; now = 0 })
      ((os_failure, refl), ((os_failure, refl), ((os_failure, refl), refl)))
