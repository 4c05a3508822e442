-- ===== src/Tests/Cluster.antt =====
-- A cluster that knows the live session, a network that reaches its pod, and the world of a local
-- request.
use mob.Prelude.{true, none, some, [], ◌∷◌, ◌==◌, if◌then◌else◌}
use mob.Json.{Json, str, obj, field, end}
use mob.Services.Sessions.Live.{Cluster, Status}
use mob.Services.Sessions.Create.{Creator, SessionData}
use mob.Services.Sessions.Send.{Network, response, alive}
use mob.Backend.{World, Draw}
use mob.Tests.Codec.{codec}

abbrev pub idle_status : Status
idle_status = ("state", some "Idle") ∷ ("podName", some "pod-2") ∷ []

abbrev pub cluster : Cluster
cluster = record {
  client = true;
  list_resources = some (("s-s2", some idle_status) ∷ []);
  get_resource = λ name. if name == "s-s2" then some (some idle_status) else none;
  read_log = λ pod tail. some ("started" ∷ []);
}

-- A cluster whose resources have no status yet.
abbrev pub early_cluster : Cluster
early_cluster = record cluster { get_resource = λ name. some (some []) }

abbrev pub reply : Json
reply = obj (field "response" (str "hello") end)

abbrev pub tunnel : Network
tunnel = record {
  local_mode = true;
  free_port = 40000;
  kubectl = alive;
  core_client = true;
  pod_ip = λ pod. some (some "10.0.0.2");
  reply = response 200 (some reply);
  shown = λ j. "";
}

-- Kubernetes refuses the custom resource.
abbrev pub creator : Creator
creator = record {
  client = true;
  create_config_map = λ cm. true;
  create_resource = λ r. some "forbidden";
}

abbrev pub request : SessionData
request = record {
  id = "s3";
  suffix = "0a1b";
  agent_id = "a1";
  task_id = none;
  name = none;
  env_overrides = none;
}

abbrev pub draw : Draw
draw = record { id = "x1"; second_id = "x2"; third_id = "x3"; suffix = "0a1b" }

abbrev pub world : World
world = record {
  json = codec;
  upper = λ s. s;
  cluster = cluster;
  creator = creator;
  network = tunnel;
  converts = λ r. true;
  bad_json = "Expecting value";
  draw = draw;
}
